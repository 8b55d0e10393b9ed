-- ===== src/Streaming/RetryWorker/Partitions.antt =====
-- src/streaming/retry.py: the held records and the paused partitions as lists of keys.
use ulpf_prism_sih.Prelude.{
  ◌≡◌, refl, ◌∙◌, inl, inr, Bool, true, false, List, [], ◌∷◌, ◌++◌, arith, Bool-cases, AllOf,
  str_eq_iff, str_eq_refl,
}
use mathlib.Core.Bool.{◌||◌}
use ulpf_prism_sih.Streaming.RetryWorker.{Key, key_eq, Held, is_held, pause, resume, without_key}

abbrev pub is_paused : Key → List Key → Bool
is_paused k [] = false
is_paused k (j ∷ js) = key_eq j k || is_paused k js

abbrev pub OnePerPartition : List Held → Type 0
OnePerPartition [] = Unit
OnePerPartition (h ∷ hs) = (is_held h.key hs ≡ false) × OnePerPartition hs

key_eq_iff : (j k : Key) → key_eq j k ≡ true → j ≡ k
key_eq_iff (t, n) (u, m) h = ground (arith, str_eq_iff t u)

key_eq_refl : (k : Key) → key_eq k k ≡ true
key_eq_refl (t, n) = ground (arith, str_eq_refl t)

key_eq_sym : (j k : Key) → key_eq j k ≡ key_eq k j
key_eq_sym (t, n) (u, m) = ground (arith, str_eq_iff t u, str_eq_iff u t)

pub is_paused-pause :
    (k j : Key) (ps : List Key) → is_paused j ps ≡ true → is_paused j (pause k ps) ≡ true
unfolding pause
is_paused-pause k j [] h = cc
is_paused-pause k j (x ∷ xs) h = ground (arith, is_paused-pause k j xs)

pub is_paused-pause_self : (k : Key) (ps : List Key) → is_paused k (pause k ps) ≡ true
unfolding pause
is_paused-pause_self k [] = rw (key_eq_refl k)
is_paused-pause_self k (x ∷ xs) = elim (Bool-cases (key_eq x k)) [
  | inl e ↦ rw e (rw e)
  | inr e ↦ rw e (rw e (is_paused-pause_self k xs))
]

is_held-snoc :
    (k : Key) (hs : List Held) (h : Held)
    → is_held k (hs ++ h ∷ []) ≡ (is_held k hs || key_eq h.key k)
unfolding is_held
is_held-snoc k [] h = ground arith
is_held-snoc k (x ∷ xs) h = ground (arith, is_held-snoc k xs h)

pub snoc-OnePerPartition :
    (hs : List Held) (h : Held)
    → is_held h.key hs ≡ false
    → OnePerPartition hs
    → OnePerPartition (hs ++ h ∷ [])
unfolding is_held
snoc-OnePerPartition [] h e ok = (refl, tt)
snoc-OnePerPartition (x ∷ xs) h e (q, ok) = (
  ground (arith, is_held-snoc x.key xs h, key_eq_sym h.key x.key, q, e),
  snoc-OnePerPartition xs h (ground arith) ok,
)

is_held-without_key :
    (k j : Key) (hs : List Held) → is_held j hs ≡ false → is_held j (without_key k hs) ≡ false
unfolding is_held without_key
is_held-without_key k j [] h = refl
is_held-without_key k j (x ∷ xs) h = elim (Bool-cases (key_eq x.key k)) [
  | inl e ↦ rw e (is_held-without_key k j xs (ground arith))
  | inr e ↦ rw e (ground (arith, is_held-without_key k j xs))
]

pub without_key-OnePerPartition :
    (k : Key) (hs : List Held) → OnePerPartition hs → OnePerPartition (without_key k hs)
unfolding without_key
without_key-OnePerPartition k [] ok = tt
without_key-OnePerPartition k (x ∷ xs) (q, ok) = elim (Bool-cases (key_eq x.key k)) [
  | inl e ↦ rw e (without_key-OnePerPartition k xs ok)
  | inr e ↦ rw e (is_held-without_key k x.key xs q, without_key-OnePerPartition k xs ok)
]

pub without_key_apart :
    (k : Key) (hs : List Held) → AllOf (λ h. key_eq h.key k ≡ false) (without_key k hs)
unfolding without_key
without_key_apart k [] = tt
without_key_apart k (x ∷ xs) = elim (Bool-cases (key_eq x.key k)) [
  | inl e ↦ rw e (without_key_apart k xs)
  | inr e ↦ rw e (e, without_key_apart k xs)
]

pub is_paused-resume :
    (k j : Key) (ps : List Key) → key_eq j k ≡ false → is_paused j (resume k ps) ≡ is_paused j ps
unfolding resume
is_paused-resume k j [] h = refl
is_paused-resume k j (x ∷ xs) h = elim (Bool-cases (key_eq x k)) [
  | inl e ↦ rw e (
      let same = key_eq_iff x k e in
      let miss : key_eq x j ≡ false = key_eq_sym x j ∙ (rw same h) in
      rw miss (is_paused-resume k j xs h))
  | inr e ↦ rw e (rw (is_paused-resume k j xs h))
]

pub AllOf-both :
    {A : Type 0} (P Q R : A → Type 0) (xs : List A)
    → ((a : A) → P a → Q a → R a)
    → AllOf P xs
    → AllOf Q xs
    → AllOf R xs
AllOf-both P Q R [] f p q = tt
AllOf-both P Q R (x ∷ xs) f (p, ps) (q, qs) = (f x p q, AllOf-both P Q R xs f ps qs)
