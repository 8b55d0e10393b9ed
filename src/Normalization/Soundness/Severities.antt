-- ===== src/Normalization/Soundness/Severities.antt =====
-- The severity tables of the mappings against the labels that the validator expects.
use mathlib.Core.Path.{subst}
use ulpf_prism_sih.Prelude.{
  ℕ, String, Bool, true, false, Option, none, some, List, [], ◌≡◌, refl, if◌then◌else◌, some_inj,
  Option-cases, none_absurd, inl, inr, ◌==◌, str_eq,
}
use ulpf_prism_sih.Dict
use ulpf_prism_sih.Dict.{Dict}
use ulpf_prism_sih.Int.{ℤ, pos, negsuc}
use ulpf_prism_sih.Json.{Json, int, str}
use ulpf_prism_sih.Python.{Python, get, as_int}
use ulpf_prism_sih.Normalization.Normalizer.{is_nil}
use ulpf_prism_sih.Normalization.Common.{
  syslog_score, fortinet_score, scored, syslog_severity, code_of,
}
use ulpf_prism_sih.Normalization.FortiGate
use ulpf_prism_sih.Validation.Semantics.{is_text, label_rule, expected_label}

-- A score has the label that it requires.
abbrev Fits : Option (ℕ × String) → Type 0
Fits none = Unit
Fits (some (s, l)) = (label_rule (int (pos s)) (str l) ≡ []) × (is_text "unknown" (str l) ≡ false)

if-Fits : (b : Bool) (x y : Option (ℕ × String)) → Fits x → Fits y → Fits (if b then x else y)
if-Fits true x y h k = h
if-Fits false x y h k = k

-- A severity section keeps to the label rule, and has a warning if it is unknown.
abbrev pub IsLabelled : Dict Json × List String → Type 0
IsLabelled (s, ws) =
    (label_rule (get "normalized" s) (get "label" s) ≡ [])
    × (is_text "unknown" (get "label" s) ≡ true → is_nil ws ≡ false)

syslog_score-Fits : (c : ℤ) → Fits (syslog_score c)
unfolding syslog_score label_rule expected_label
syslog_score-Fits (negsuc n) = tt
syslog_score-Fits (pos n) =
    if-Fits (n == 0) _ _ (refl, refl)
      (if-Fits (n == 1) _ _ (refl, refl)
        (if-Fits (n == 2) _ _ (refl, refl)
          (if-Fits (n == 3) _ _ (refl, refl)
            (if-Fits (n == 4) _ _ (refl, refl)
              (if-Fits (n == 5) _ _ (refl, refl)
                (if-Fits (n == 6) _ _ (refl, refl) (if-Fits (n == 7) _ _ (refl, refl) tt)))))))

fortinet_score-Fits : (s : String) → Fits (fortinet_score s)
unfolding fortinet_score label_rule expected_label
fortinet_score-Fits s =
    if-Fits (str_eq s "emergency") _ _ (refl, refl)
      (if-Fits (str_eq s "alert") _ _ (refl, refl)
        (if-Fits (str_eq s "critical") _ _ (refl, refl)
          (if-Fits (str_eq s "error") _ _ (refl, refl)
            (if-Fits (str_eq s "warning") _ _ (refl, refl)
              (if-Fits (str_eq s "notice") _ _ (refl, refl)
                (if-Fits (str_eq s "information") _ _ (refl, refl)
                  (if-Fits (str_eq s "debug") _ _ (refl, refl) tt)))))))

scored-IsLabelled :
    (py : Python) (v : Json) (o : Option (ℕ × String)) → Fits o → IsLabelled (scored py v o)
unfolding scored get Dict.lookup label_rule
scored-IsLabelled py v none h = (refl, λ e. refl)
scored-IsLabelled py v (some (s, l)) h = (h.0, λ e. cc)

pub syslog_severity-IsLabelled :
    (py : Python) (v : Json) {s : Dict Json × List String}
    → syslog_severity py v ≡ some s
    → IsLabelled s
unfolding syslog_severity
syslog_severity-IsLabelled py v h = elim (Option-cases (as_int py v)) [
  | inl q ↦ none_absurd _ (rw q at h)
  | inr (c, q) ↦
      subst IsLabelled (some_inj (rw q at h))
        (scored-IsLabelled py v (syslog_score (code_of c)) (syslog_score-Fits (code_of c)))
]

level_scored-IsLabelled :
    (level : String) (o : Option (ℕ × String)) → Fits o → IsLabelled (FortiGate.scored level o)
unfolding FortiGate.scored get Dict.lookup label_rule
level_scored-IsLabelled level none h = (refl, λ e. refl)
level_scored-IsLabelled level (some (s, l)) h = (h.0, λ e. cc)

pub fortigate_scored-IsLabelled :
    (level : String) → IsLabelled (FortiGate.scored level (fortinet_score level))
fortigate_scored-IsLabelled level = level_scored-IsLabelled level _ (fortinet_score-Fits level)
