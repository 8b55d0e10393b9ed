-- ===== src/Integrations/Cef/Escaping.antt =====
-- An escaped field of a header through the split and the unescaping.
use Prim.Native.Char.{Char, code}
use Prim.Native.String.{◌++◌ as append}
use text.Mathlib.TextLemmas.{nil-append, cons-append}
use ulpf_prism_sih.Prelude.{
  ℕ, suc, String, Bool, true, false, ◌&&◌, not, ◌==◌, ◌≡◌, refl, ap, arith, inl, inr, Bool-cases,
  if◌then◌else◌,
}
use ulpf_prism_sih.Integrations.Cef.{escape}
use ulpf_prism_sih.Core.Parsers.Cef.{split, parts_of, push, unescaped}

-- A text without a backslash and without line ends.
unfoldable pub is_plain : String → Bool
is_plain String.[] = true
is_plain (String.◌∷◌ c s) =
    not (code c == b'\\') && not (code c == 13) && not (code c == 10) && is_plain s

is_plain-cons :
    (c : Char) (s : String)
    → is_plain (String.◌∷◌ c s) ≡ true
    → (code c == b'\\' ≡ false)
      × (code c == 13 ≡ false)
      × (code c == 10 ≡ false)
      × (is_plain s ≡ true)
unfolding is_plain
is_plain-cons c s h = (ground (arith, h), ground (arith, h), ground (arith, h), ground (arith, h))

escape-cons :
    (c : Char) (s : String)
    → is_plain (String.◌∷◌ c s) ≡ true
    → escape false (String.◌∷◌ c s) ≡ (
        if code c == b'|'
        then String.◌∷◌ "\\" (String.◌∷◌ c (escape false s))
        else String.◌∷◌ c (escape false s))
unfolding escape
escape-cons c s h = let (a, b, d, e) = is_plain-cons c s h in rw a (rw b (rw d (ground arith)))

split_skip :
    (n : ℕ) (escaped : Bool) (c : Char) (s : String)
    → code c == b'|' ≡ false
    → split (suc n) escaped (String.◌∷◌ c s) ≡ push c (split (suc n) (code c == b'\\') s)
unfolding split
split_skip n escaped c s q = rw (q, split) refl

split_escaped :
    (n : ℕ) (c : Char) (s : String)
    → split (suc n) true (String.◌∷◌ c s) ≡ push c (split (suc n) (code c == b'\\') s)
unfolding split
split_escaped n c s = elim (Bool-cases (code c == b'|')) [
  | inl q ↦ rw (q, split) refl
  | inr q ↦ rw (q, split) refl
]

split_pipe :
    (n : ℕ) (s : String) → split (suc n) false (String.◌∷◌ "|" s) ≡ ("", parts_of (split n false s))
unfolding split
split_pipe n s = refl

split_nil :
    (n : ℕ) (x : String)
    → split (suc n) false (append (escape false "") (String.◌∷◌ "|" x))
      ≡ (escape false "", parts_of (split n false x))
unfolding escape
split_nil n x = rw (nil-append (String.◌∷◌ "|" x)) (split_pipe n x)

split_step :
    (n : ℕ) (c : Char) (f x : String)
    → code c == b'\\' ≡ false
    → split (suc n) false (append (escape false f) (String.◌∷◌ "|" x))
      ≡ (escape false f, parts_of (split n false x))
    → let s =
        if code c == b'|'
        then String.◌∷◌ "\\" (String.◌∷◌ c (escape false f))
        else String.◌∷◌ c (escape false f) in
      split (suc n) false (append s (String.◌∷◌ "|" x)) ≡ (s, parts_of (split n false x))
split_step n c f x a h = elim (Bool-cases (code c == b'|')) [
  | inl q ↦ rw q (
      rw (cons-append "\\" (String.◌∷◌ c (escape false f)) (String.◌∷◌ "|" x)) (
        rw
          (split_skip n false "\\" (append (String.◌∷◌ c (escape false f)) (String.◌∷◌ "|" x)) refl)
          (ap (push "\\") (
            rw (cons-append c (escape false f) (String.◌∷◌ "|" x)) (
              rw (split_escaped n c (append (escape false f) (String.◌∷◌ "|" x)))
                (rw a (ap (push c) h)))))))
  | inr q ↦ rw q (
      rw (cons-append c (escape false f) (String.◌∷◌ "|" x)) (
        rw (split_skip n false c (append (escape false f) (String.◌∷◌ "|" x)) q)
          (rw a (ap (push c) h))))
]

-- An escaped field is the first part.
pub split-escape :
    (n : ℕ) (f x : String)
    → is_plain f ≡ true
    → split (suc n) false (append (escape false f) (String.◌∷◌ "|" x))
      ≡ (escape false f, parts_of (split n false x))
split-escape n String.[] x h = split_nil n x
split-escape n (String.◌∷◌ c f) x h =
    let (a, b, d, e) = is_plain-cons c f h in
    rw (escape-cons c f h) (split_step n c f x a (split-escape n f x e))

unescaped_step :
    (c : Char) (s : String)
    → code c == b'\\' ≡ false
    → unescaped (String.◌∷◌ c s) ≡ String.◌∷◌ c (unescaped s)
unfolding unescaped
unescaped_step c String.[] a = refl
unescaped_step c (String.◌∷◌ d s) a = rw a refl

unescaped_pipe :
    (c : Char) (s : String)
    → code c == b'|' ≡ true
    → unescaped (String.◌∷◌ "\\" (String.◌∷◌ c s)) ≡ String.◌∷◌ c (unescaped s)
unfolding unescaped
unescaped_pipe c s q = rw q refl

unescaped_nil : unescaped (escape false "") ≡ ""
unfolding unescaped escape
unescaped_nil = refl

pub unescaped-escape : (f : String) → is_plain f ≡ true → unescaped (escape false f) ≡ f
unescaped-escape String.[] h = unescaped_nil
unescaped-escape (String.◌∷◌ c f) h =
    let (a, b, d, e) = is_plain-cons c f h in
    rw (escape-cons c f h) (elim (Bool-cases (code c == b'|')) [
      | inl q ↦
          rw q (rw (unescaped_pipe c (escape false f) q) (ap (String.◌∷◌ c) (unescaped-escape f e)))
      | inr q ↦
          rw q (rw (unescaped_step c (escape false f) a) (ap (String.◌∷◌ c) (unescaped-escape f e)))
    ])
