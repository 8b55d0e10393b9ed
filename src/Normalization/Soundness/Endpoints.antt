-- ===== src/Normalization/Soundness/Endpoints.antt =====
-- The endpoints and the category of a mapping against the rule on network events.
use mathlib.Core.Path.{subst}
use ulpf_prism_sih.Prelude.{
  ℕ, String, true, Option, none, some, [], ◌∷◌, ◌≡◌, ◌≢◌, refl, some_inj, Option-cases, none_absurd,
  inl, inr, Bool-cases,
}
use ulpf_prism_sih.Dict
use ulpf_prism_sih.Dict.{Dict}
use ulpf_prism_sih.Json.{Json, str}
use ulpf_prism_sih.Python.{Python, get, truthy, update}
use ulpf_prism_sih.Contracts.ParsedEvent.{ParsedEvent}
use ulpf_prism_sih.Normalization.Assembled.{given}
use ulpf_prism_sih.Normalization.Common.{
  valid_ip, valid_port, endpoint, names_ip, with_text, with_number, or_none, with_message,
}
use ulpf_prism_sih.Validation.Semantics.{section, has_ip, endpoint_rule, is_text}

module _ (py : Python) where
  abbrev pub Placed : Option (Dict Json) → Type 0
  Placed e = names_ip e ≡ true → has_ip py (section (given e)) ≡ true

  placed :
      (ip interface : Option String) (port : Option ℕ)
      → ip ≢ some ""
      → Placed (
          or_none
            (with_text "interface" interface (with_number "port" port (with_text "ip" ip []))))
  unfolding get truthy Dict.lookup Dict.assign
  placed none none none h k = cc
  placed none none (some n) h k = cc
  placed none (some i) none h k = cc
  placed none (some i) (some n) h k = cc
  placed (some String.[]) i n h k = absurd (h refl)
  placed (some (String.◌∷◌ c s)) none none h k = refl
  placed (some (String.◌∷◌ c s)) none (some n) h k = refl
  placed (some (String.◌∷◌ c s)) (some i) none h k = refl
  placed (some (String.◌∷◌ c s)) (some i) (some n) h k = refl

  valid_ip_ne_empty : (v : Json) → valid_ip py v ≢ some ""
  unfolding valid_ip
  valid_ip_ne_empty (str s) = py.ip_address_ne_empty s
  valid_ip_ne_empty _ = λ h. cc

  pub endpoint-Placed :
      (d : Dict Json) (ip port interface : String) {r : Option (Dict Json)}
      → endpoint py d ip port interface ≡ some r
      → Placed r
  unfolding endpoint
  endpoint-Placed d ip port interface h = elim (Option-cases (valid_port py (get port d))) [
    | inl q ↦ none_absurd _ (rw q at h)
    | inr (n, q) ↦ subst Placed (some_inj (rw q at h)) (placed _ _ n (valid_ip_ne_empty (get ip d)))
  ]

  pub endpoint_rule-nil :
      (name : String) (c : Json) (e : Option (Dict Json))
      → Placed e
      → (is_text "network" c ≡ true → names_ip e ≡ true)
      → endpoint_rule py name c (section (given e)) ≡ []
  unfolding endpoint_rule
  endpoint_rule-nil name c e h k = elim (Bool-cases (is_text "network" c)) [
    | inl q ↦ rw (q, h (k q)) refl
    | inr q ↦ rw q refl
  ]

-- The category of an event whose mapping starts with one.
pub category_lem :
    (e : ParsedEvent) (message : Option String) (c : String) (kind name : Json)
    → get "category" (
        update
          (("id", str e.event_id) ∷ ("kind", str "event") ∷ [])
          (with_message message (("category", str c) ∷ ("type", kind) ∷ ("name", name) ∷ [])))
      ≡ str c
unfolding get update Dict.lookup Dict.assign
category_lem e none c kind name = refl
category_lem e (some s) c kind name = refl
