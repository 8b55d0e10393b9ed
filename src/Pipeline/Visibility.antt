-- ===== src/Pipeline/Visibility.antt =====
-- src/pipeline/storage.py: the in-memory event store. A call that raises returns no result, with
-- the state that it leaves. The two indexes hold the keys that are texts; no lookup finds another.
pub mod Indexed
pub mod Searched
pub mod Counted
use Prim.Native.Char.{code}
use Prim.Native.String.{◌++◌ as append}
use ulpf_prism_sih.Prelude.{
  ℕ, zero, suc, ◌+◌, String, Bool, true, false, not, ◌&&◌, ◌||◌, Option, none, some, List, [], ◌∷◌,
  ◌++◌, leb, ltb, ◌==◌, if◌then◌else◌, str_eq, length, take,
}
use ulpf_prism_sih.Dict
use ulpf_prism_sih.Dict.{Dict}
use ulpf_prism_sih.Json.{Json, null, boolean, int, float, str, arr, obj, fields, items}
use ulpf_prism_sih.Python.{Python, truthy, get}
use ulpf_prism_sih.Python.Words.{occurs}
use ulpf_prism_sih.Contracts.RawEvent.{Timestamp, Zone, naive, utc, shifted}
use ulpf_prism_sih.Normalization.Common.{has_key}
use ulpf_prism_sih.Storage.ClickHouse.{WriteResult}
use ulpf_prism_sih.Validation.Semantics.{is_text}

abbrev pub Event : Type 0
Event = Dict Json

pub record AnalyticalVisibilityStore : Type 0 where
  pub events : List Event
  pub by_id : Dict Event
  pub by_raw_hash : Dict Event

unfoldable pub empty : AnalyticalVisibilityStore
empty = record { events = []; by_id = []; by_raw_hash = [] }

infixl 5 ◌>>=◌
abbrev pub ◌>>=◌ : {A B : Type 0} → Option A → (A → Option B) → Option B
none >>= f = none
some a >>= f = f a

-- `event.get(section, {})`, on which `get` is called
abbrev pub section_of : Option Json → Option (Dict Json)
section_of none = some []
section_of (some (obj fs)) = some (fields fs)
section_of (some v) = none

-- `event.get(section, {}).get(key)`
unfoldable pub field_of : String → String → Event → Option Json
field_of section key event = do d ← section_of (Dict.lookup section event); some (get key d)

-- `index[key] = event`, if the key is not empty; a list or a dictionary is no key
unfoldable pub index : Python → Json → Event → Dict Event → Option (Dict Event)
index py (str String.[]) event d = some d
index py (str (String.◌∷◌ c s)) event d = some (Dict.assign (String.◌∷◌ c s) event d)
index py (arr vs) event d = if truthy py (arr vs) then none else some d
index py (obj fs) event d = if truthy py (obj fs) then none else some d
index py v event d = some d

-- whether a call returned, and the state
abbrev pub Returned : Type 0
Returned = Bool × AnalyticalVisibilityStore

-- the hash's index, or the exception
hashed : AnalyticalVisibilityStore → Option (Dict Event) → Returned
hashed s none = (false, s)
hashed s (some d) = (true, record s { by_raw_hash = d })

-- the id's index, or the exception
identified : Python → Json → Event → AnalyticalVisibilityStore → Option (Dict Event) → Returned
identified py h event s none = (false, s)
identified py h event s (some d) = hashed (record s { by_id = d }) (index py h event s.by_raw_hash)

add_read : Python → Option Json → Option Json → Event → AnalyticalVisibilityStore → Returned
add_read py (some id) (some h) event s =
    identified py h event (record s { events = s.events ++ event ∷ [] }) (index py id event s.by_id)
add_read py _ _ event s = (false, s)

-- `add_event`
unfoldable pub add_event : Python → Event → AnalyticalVisibilityStore → Returned
unfolding add_read identified hashed
add_event py event s =
    add_read py (field_of "event" "id" event) (field_of "traceability" "raw_sha256" event) event s

unfoldable pub event_count : AnalyticalVisibilityStore → ℕ
event_count s = length s.events

-- `get_by_id`, `get_by_event_id`
unfoldable pub get_by_id : String → AnalyticalVisibilityStore → Option Event
get_by_id id s = Dict.lookup id s.by_id

unfoldable pub get_by_raw_hash : String → AnalyticalVisibilityStore → Option Event
get_by_raw_hash h s = Dict.lookup h s.by_raw_hash

-- whether `write_batch` counts an event as quarantined; reading the quality may raise
unfoldable pub is_refused : (Event → Bool) → Event → Option Bool
is_refused valid event =
    if valid event
    then (do status ← field_of "quality" "status" event; some (is_text "invalid" status))
    else some true

pub record Counts : Type 0 where
  pub valid : ℕ
  pub quarantined : ℕ

count : Bool → Counts → Counts
count true c = record c { quarantined = suc c.quarantined }
count false c = record c { valid = suc c.valid }

abbrev pub result_of : Counts → WriteResult
result_of c = record {
  accepted_count = c.valid + c.quarantined;
  valid_count = c.valid;
  quarantine_count = c.quarantined;
  failed_count = 0;
  errors = [];
}

-- one event of the loop: its count and the state, or the exception
noted : Counts → Bool → Returned → Option Counts × AnalyticalVisibilityStore
noted c b (false, s) = (none, s)
noted c b (true, s) = (some (count b c), s)

unfoldable pub write_one :
    Python
    → Event
    → Counts
    → AnalyticalVisibilityStore
    → Option Bool
    → Option Counts × AnalyticalVisibilityStore
unfolding noted count
write_one py e c s none = (none, s)
write_one py e c s (some b) = noted c b (add_event py e s)

-- The loop of `write_batch`. The validator is a parameter.
unfoldable pub write_loop :
    Python
    → (Event → Bool)
    → List Event
    → Option Counts × AnalyticalVisibilityStore
    → Option WriteResult × AnalyticalVisibilityStore
write_loop py valid es (none, s) = (none, s)
write_loop py valid [] (some c, s) = (some (result_of c), s)
write_loop py valid (e ∷ es) (some c, s) =
    write_loop py valid es (write_one py e c s (is_refused valid e))

-- `write_batch`
unfoldable pub write_batch :
    Python
    → (Event → Bool)
    → List Event
    → AnalyticalVisibilityStore
    → Option WriteResult × AnalyticalVisibilityStore
write_batch py valid events s =
    write_loop py valid events (some (record { valid = 0; quarantined = 0 }), s)

-- `reversed(...)`
unfoldable pub reversed {ℓ} : {A : Type ℓ} → List A → List A
reversed [] = []
reversed (x ∷ xs) = reversed xs ++ x ∷ []

-- `list_events`, with a limit that is not negative
unfoldable pub list_events : ℕ → AnalyticalVisibilityStore → List Event
unfolding reversed
list_events limit s = take limit (reversed s.events)

pub record Filters : Type 0 where
  pub query : Option String
  pub vendor : Option String
  pub category : Option String
  pub action : Option String
  pub severity : Option String
  pub quality_status : Option String
  pub start_time : Option Timestamp
  pub end_time : Option Timestamp

abbrev text_value : Json → Option String
text_value (str s) = some s
text_value v = none

abbrev text_or_empty : Option Json → Option String
text_or_empty none = some ""
text_or_empty (some v) = text_value v

-- `event.get(section, {}).get(key, "")`, which has to be a text
unfoldable pub text_of : String → String → Event → Option String
text_of section key event = do
  d ← section_of (Dict.lookup section event)
  text_or_empty (Dict.lookup key d)

-- `if not test: continue`, before the rest
abbrev pub and_then : Option Bool → Option Bool → Option Bool
and_then none rest = none
and_then (some false) rest = some false
and_then (some true) rest = rest

-- whether a wanted value admits an attribute
unfoldable pub admits : Python → Option String → String → Bool
admits py none value = true
admits py (some String.[]) value = true
admits py (some (String.◌∷◌ c s)) value =
    let wanted = py.lower (String.◌∷◌ c s) in str_eq wanted "all" || str_eq wanted value

-- one of the filters on an attribute
unfoldable pub attribute : Python → Option String → String → String → Event → Option Bool
unfolding admits
attribute py wanted section key event = do
  value ← text_of section key event
  some (admits py wanted (py.lower value))

abbrev is_aware : Zone → Bool
is_aware naive = false
is_aware _ = true

-- `a < b`, which raises between a naive and an aware time
unfoldable pub earlier : Timestamp → Timestamp → Option Bool
earlier a b =
    if is_aware a.zone
    then (if is_aware b.zone then some (ltb a.instant b.instant) else none)
    else if is_aware b.zone
    then none
    else some (ltb a.instant b.instant)

abbrev negated : Option Bool → Option Bool
negated none = none
negated (some b) = some (not b)

abbrev not_before : Option Timestamp → Timestamp → Option Bool
not_before none t = some true
not_before (some s) t = negated (earlier t s)

abbrev before_end : Option Timestamp → Timestamp → Option Bool
before_end none t = some true
before_end (some e) t = earlier t e

within : Filters → Option Timestamp → Option Bool
within f none = none
within f (some t) = and_then (not_before f.start_time t) (before_end f.end_time t)

abbrev is_bounded : Filters → Bool
is_bounded f = elim f.start_time [
  | some t ↦ true
  | none ↦ elim f.end_time [ some t ↦ true | none ↦ false ]
]

replace_z : String → String
replace_z String.[] = ""
replace_z (String.◌∷◌ c s) =
    let rest = replace_z s in if code c == b'Z' then append "+00:00" rest else String.◌∷◌ c rest

observed_within : Python → Filters → Json → Option Bool
observed_within py f (str s) =
    if is_bounded f then within f (py.fromisoformat (replace_z s)) else some true
observed_within py f v = some true

-- the filter on the time of observation
unfoldable pub in_time : Python → Filters → Event → Option Bool
unfolding observed_within within replace_z
in_time py f event = do v ← field_of "time" "observed_at" event; observed_within py f v

-- `event.get(section, {}).get(key, "")`
unfoldable pub value_of : String → String → Event → Option Json
value_of section key event = do
  d ← section_of (Dict.lookup section event)
  some (elim (Dict.lookup key d) [ none ↦ str "" | some v ↦ v ])

any_text : String → List Json → Bool
any_text q [] = false
any_text q (v ∷ vs) = is_text q v || any_text q vs

-- `q in value`: a part of a text, an element of a list, a key of a dictionary
unfoldable pub contained : String → Json → Option Bool
unfolding any_text
contained q (str s) = some (occurs q s)
contained q (arr vs) = some (any_text q (items vs))
contained q (obj fs) = some (has_key q (fields fs))
contained q v = none

-- `a or b`
abbrev or_then : Option Bool → Option Bool → Option Bool
or_then none rest = none
or_then (some true) rest = some true
or_then (some false) rest = rest

-- the free-text search of a lowercase query
abbrev found : Python → String → Event → Option Bool
found py q event = do
  msg ← text_of "event" "message" event
  name ← text_of "event" "name" event
  src_ip ← value_of "source" "ip" event
  dst_ip ← value_of "destination" "ip" event
  raw_hash ← value_of "traceability" "raw_sha256" event
  vendor ← text_of "observer" "vendor" event
  or_then (some (occurs q (py.lower msg) || occurs q (py.lower name))) (
      or_then (contained q src_ip) (
        or_then (contained q dst_ip)
          (or_then (contained q raw_hash) (some (occurs q (py.lower vendor))))))

abbrev found_or_empty : Python → String → Event → Option Bool
found_or_empty py String.[] event = some true
found_or_empty py (String.◌∷◌ c s) event = found py (String.◌∷◌ c s) event

unfoldable pub in_text : Python → Option String → Event → Option Bool
in_text py none event = some true
in_text py (some String.[]) event = some true
in_text py (some (String.◌∷◌ c s)) event = found_or_empty py (py.lower (String.◌∷◌ c s)) event

-- whether the loop of `search` keeps an event
unfoldable pub matches : Python → Filters → Event → Option Bool
unfolding attribute in_time in_text
matches py f event = and_then (attribute py f.vendor "observer" "vendor" event) (
    and_then (attribute py f.category "event" "category" event) (
      and_then (attribute py f.action "action" "normalized" event) (
        and_then (in_time py f event) (
          and_then (attribute py f.severity "severity" "label" event) (
            and_then (attribute py f.quality_status "quality" "status" event)
              (in_text py f.query event))))))

-- The loop of `search` over the events that are left, with the results so far.
unfoldable pub search_loop :
    (Event → Option Bool) → ℕ → List Event → List Event → Option (List Event)
search_loop keeps limit results [] = some results
search_loop keeps limit results (e ∷ es) = elim (keeps e) [
  | none ↦ none
  | some false ↦ search_loop keeps limit results es
  | some true ↦ elim (leb limit (length (results ++ e ∷ []))) [
    | true ↦ some (results ++ e ∷ [])
    | false ↦ search_loop keeps limit (results ++ e ∷ []) es
  ]
]

-- `search`
unfoldable pub search : Python → Filters → ℕ → AnalyticalVisibilityStore → Option (List Event)
unfolding search_loop matches reversed
search py f limit s = search_loop (matches py f) limit [] (reversed s.events)

-- `clear`
unfoldable pub clear : AnalyticalVisibilityStore → AnalyticalVisibilityStore
clear s = empty
