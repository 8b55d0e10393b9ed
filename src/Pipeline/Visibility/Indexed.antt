-- ===== src/Pipeline/Visibility/Indexed.antt =====
-- What an event that is added changes in the store.
use ulpf_prism_sih.Prelude.{
  String, Bool, true, false, Option, none, some, [], ◌∷◌, ◌++◌, ◌≡◌, refl, if◌then◌else◌, str_eq,
  some_inj,
}
use ulpf_prism_sih.Dict
use ulpf_prism_sih.Dict.{Dict, lookup-assign}
use ulpf_prism_sih.Json.{Json, null, boolean, int, float, str, arr, obj}
use ulpf_prism_sih.Python.{Python, truthy}
use ulpf_prism_sih.Pipeline.Visibility.{
  Event, AnalyticalVisibilityStore, field_of, index, add_read, identified, hashed, add_event,
  get_by_id, get_by_raw_hash,
}

-- whether a value is the key that a lookup of a text finds
abbrev pub is_key : String → Json → Bool
is_key k (str String.[]) = false
is_key k (str (String.◌∷◌ c s)) = str_eq (String.◌∷◌ c s) k
is_key k v = false

abbrev pub names : String → Option Json → Bool
names k none = false
names k (some v) = is_key k v

unhashable :
    (b : Bool) (k : String) (d : Dict Event) {d' : Dict Event}
    → (if b then none else some d) ≡ some d'
    → Dict.lookup k d' ≡ Dict.lookup k d
unhashable true k d h = cc
unhashable false k d h = rw (some_inj h) refl

index-lookup :
    (py : Python) (k : String) (v : Json) (e : Event) (d : Dict Event) {d' : Dict Event}
    → index py v e d ≡ some d'
    → Dict.lookup k d' ≡ (if is_key k v then some e else Dict.lookup k d)
unfolding index
index-lookup py k (str String.[]) e d h = rw (some_inj h) refl
index-lookup py k (str (String.◌∷◌ c s)) e d h =
    rw (← some_inj h) (lookup-assign (String.◌∷◌ c s) k e d)
index-lookup py k (arr vs) e d h = unhashable (truthy py (arr vs)) k d h
index-lookup py k (obj fs) e d h = unhashable (truthy py (obj fs)) k d h
index-lookup py k null e d h = rw (some_inj h) refl
index-lookup py k (boolean b) e d h = rw (some_inj h) refl
index-lookup py k (int n) e d h = rw (some_inj h) refl
index-lookup py k (float x) e d h = rw (some_inj h) refl

abbrev Added :
    Event
    → AnalyticalVisibilityStore
    → String
    → Option Json
    → Option Json
    → AnalyticalVisibilityStore
    → Type 0
Added e s k id h t =
    (t.events ≡ s.events ++ e ∷ [])
    × (get_by_id k t ≡ (if names k id then some e else get_by_id k s))
    × (get_by_raw_hash k t ≡ (if names k h then some e else get_by_raw_hash k s))

hashed-Added :
    (e : Event) (s : AnalyticalVisibilityStore) (k : String) (id h : Json) (d : Dict Event)
    (o : Option (Dict Event))
    → (Dict.lookup k d ≡ (if is_key k id then some e else Dict.lookup k s.by_id))
    → ((g : Dict Event)
        → o ≡ some g
        → Dict.lookup k g ≡ (if is_key k h then some e else Dict.lookup k s.by_raw_hash))
    → (hashed (record s { events = s.events ++ e ∷ []; by_id = d }) o).0 ≡ true
    → Added e s k
        (some id)
        (some h)
        (hashed (record s { events = s.events ++ e ∷ []; by_id = d }) o).1
unfolding hashed get_by_id get_by_raw_hash
hashed-Added e s k id h d none a b ok = cc
hashed-Added e s k id h d (some g) a b ok = (refl, a, b g refl)

identified-Added :
    (py : Python) (e : Event) (s : AnalyticalVisibilityStore) (k : String) (id h : Json)
    (o : Option (Dict Event))
    → ((d : Dict Event)
        → o ≡ some d
        → Dict.lookup k d ≡ (if is_key k id then some e else Dict.lookup k s.by_id))
    → (identified py h e (record s { events = s.events ++ e ∷ [] }) o).0 ≡ true
    → Added e s k
        (some id)
        (some h)
        (identified py h e (record s { events = s.events ++ e ∷ [] }) o).1
unfolding identified
identified-Added py e s k id h none a ok = cc
identified-Added py e s k id h (some d) a ok =
    hashed-Added e s k id h d (index py h e s.by_raw_hash) (a d refl)
      (λ g r. index-lookup py k h e s.by_raw_hash r) ok

add_read-Added :
    (py : Python) (e : Event) (s : AnalyticalVisibilityStore) (k : String) (id h : Option Json)
    → (add_read py id h e s).0 ≡ true
    → Added e s k id h (add_read py id h e s).1
unfolding add_read
add_read-Added py e s k none h ok = cc
add_read-Added py e s k (some id) none ok = cc
add_read-Added py e s k (some id) (some h) ok =
    identified-Added py e s k id h (index py id e s.by_id) (λ d q. index-lookup py k id e s.by_id q)
      ok

-- Adding an event, if the call returns, puts it last, makes it the answer for its id and for its
-- raw hash, where these are texts and not empty, and changes no other answer.
pub add_event-lookup :
    (py : Python) (e : Event) (s : AnalyticalVisibilityStore) (k : String)
    → (add_event py e s).0 ≡ true
    → ((add_event py e s).1.events ≡ s.events ++ e ∷ [])
      × (get_by_id k (add_event py e s).1
          ≡ (if names k (field_of "event" "id" e) then some e else get_by_id k s))
      × (get_by_raw_hash k (add_event py e s).1 ≡ (
          if names k (field_of "traceability" "raw_sha256" e) then some e else get_by_raw_hash k s))
unfolding add_event get_by_id get_by_raw_hash
add_event-lookup py e s k h = add_read-Added py e s k _ _ h
