-- ===== src/Integrations/Bulk.antt =====
-- src/integrations/opensearch.py: how the answer to a bulk request is read.
pub mod Counting
pub mod Confirmed
use mathlib.Core.Option
use ulpf_prism_sih.Prelude.{
  ℕ, zero, suc, ◌+◌, String, Bool, true, false, ◌&&◌, ◌||◌, Option, none, some, List, [], ◌∷◌, ◌++◌,
  ltb, leb, ◌==◌, if◌then◌else◌, length, take, drop, str_eq, Text, Bytes, codes,
}
use ulpf_prism_sih.Int.{ℤ, pos, negsuc}
use ulpf_prism_sih.Dict
use ulpf_prism_sih.Dict.{Dict}
use ulpf_prism_sih.Json.{Json, null, boolean, int, float, str, arr, obj, items, fields}
use ulpf_prism_sih.Decimal.{show}
use ulpf_prism_sih.Integrations.Delivery.{DeliveryResult, Event}

pub data Posted : Type 0 where
  responded : ℤ → Dict Json → Posted
  post_raised : Text → Posted

abbrev pub is_success : ℤ → Bool
is_success (pos n) = leb 200 n && ltb n 300
is_success (negsuc n) = false

-- `_retryable`
unfoldable pub is_retryable : ℤ → Bool
is_retryable (pos n) = n == 408 || n == 429 || (leb 500 n && leb n 599)
is_retryable (negsuc n) = false

text_of : Option Json → Option String
text_of (some (str s)) = some s
text_of _ = none

error_text : Option Json → Option String
error_text (some (str s)) = some s
error_text (some (obj fs)) = text_of (Dict.lookup "reason" (fields fs))
error_text _ = none

-- `_reason` of a dictionary
unfoldable pub reason : Dict Json → Option String
unfolding error_text text_of
reason d = error_text (Dict.lookup "error" d)

-- the tests of a text as a condition: an empty one counts as missing
abbrev given : Option String → List Text
given none = []
given (some s) = if str_eq s "" then [] else codes s ∷ []

abbrev or_message : Option String → Text → Text
or_message none m = m
or_message (some s) m = if str_eq s "" then m else codes s

abbrev show_ℤ : ℤ → Text
show_ℤ (pos n) = show n
show_ℤ (negsuc n) = b'-' ∷ show (suc n)

as_operation : Option Json → Option (Dict Json)
as_operation none = some []
as_operation (some (obj fs)) = some (fields fs)
as_operation (some _) = none

-- `item.get("index", {})`; the exception of `get` on a value that is no dictionary is `none`
unfoldable pub operation : Json → Option (Dict Json)
unfolding as_operation
operation (obj fs) = as_operation (Dict.lookup "index" (fields fs))
operation _ = some []

int_of : Option Json → Option ℤ
int_of (some (int z)) = some z
int_of (some (boolean true)) = some (pos 1)
int_of (some (boolean false)) = some (pos 0)
int_of _ = none

-- the status of an operation, if it is an `int`
unfoldable pub status_of : Dict Json → Option ℤ
unfolding int_of
status_of d = int_of (Dict.lookup "status" d)

-- The counters of the loop over the items.
pub record Tally : Type 0 where
  pub delivered : ℕ
  pub retryable_failures : ℕ
  pub terminal_failures : ℕ
  pub errors : List Text

tally_status : Option String → Option ℤ → Tally → Tally
tally_status why none t = record t {
  terminal_failures = t.terminal_failures + 1;
  errors = t.errors ++ given why;
}
tally_status why (some status) t =
    if is_success status
    then record t { delivered = t.delivered + 1 }
    else if is_retryable status
    then record t { retryable_failures = t.retryable_failures + 1; errors = t.errors ++ given why }
    else record t { terminal_failures = t.terminal_failures + 1; errors = t.errors ++ given why }

tally_item : Option (Dict Json) → Tally → Option Tally
unfolding tally_status
tally_item none t = none
tally_item (some op) t = some (tally_status (reason op) (status_of op) t)

infixl 5 ◌>>=◌
abbrev ◌>>=◌ {ℓ κ} : {A : Type ℓ} {B : Type κ} → Option A → (A → Option B) → Option B
none >>= k = none
some a >>= k = k a

-- the loop over the items
unfoldable pub count_items : List Json → Tally → Option Tally
unfolding tally_item
count_items [] t = some t
count_items (item ∷ more) t = do u ← tally_item (operation item) t; count_items more u

abbrev no_tally : Tally
no_tally = record { delivered = 0; retryable_failures = 0; terminal_failures = 0; errors = [] }

abbrev of_tally : ℕ → Tally → DeliveryResult
of_tally n t = record {
  attempted = n;
  delivered = t.delivered;
  retryable_failures = t.retryable_failures;
  terminal_failures = t.terminal_failures;
  errors = t.errors;
}

-- all events of a chunk fail alike
abbrev all_fail : ℕ → Bool → Text → DeliveryResult
all_fail n retry message = record {
  attempted = n;
  delivered = 0;
  retryable_failures = if retry then n else 0;
  terminal_failures = if retry then 0 else n;
  errors = message ∷ [];
}

read_items : ℕ → Option Json → Option DeliveryResult
read_items n (some (arr vs)) =
    if length (items vs) == n
    then Option.map (of_tally n) (count_items (items vs) no_tally)
    else some (all_fail n true (codes "bulk response item count did not match request"))
read_items n _ = some (all_fail n true (codes "bulk response item count did not match request"))

-- what the chunk makes of the answer to its post
unfoldable pub read_response : ℕ → Posted → Option DeliveryResult
unfolding read_items
read_response n (post_raised message) = some (all_fail n true message)
read_response n (responded status body) =
    if is_success status
    then read_items n (Dict.lookup "items" body)
    else some (
        all_fail n (is_retryable status)
          (or_message (reason body) (codes "bulk request returned HTTP " ++ show_ℤ status)))
