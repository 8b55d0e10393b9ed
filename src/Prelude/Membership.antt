-- ===== src/Prelude/Membership.antt =====
-- Membership and predicates by recursion, which compute to sums and products.
use mathlib.Core.Path.{◌≡◌, refl, sym, subst}
use mathlib.Core.Logic.{◌⊎◌, inl, inr}
use mathlib.Core.List.{List, [], ◌∷◌, ◌++◌}

abbrev pub Among : {A : Type 0} → A → List A → Type 0
Among a [] = ⊥
Among a (x ∷ xs) = (a ≡ x) ⊎ Among a xs

abbrev pub AllOf : {A : Type 0} → (A → Type 0) → List A → Type 0
AllOf P [] = Unit
AllOf P (x ∷ xs) = P x × AllOf P xs

pub Among-append : {A : Type 0} (a : A) (xs ys : List A) → Among a xs → Among a (xs ++ ys)
Among-append a [] ys h = absurd h
Among-append a (x ∷ xs) ys (inl e) = inl e
Among-append a (x ∷ xs) ys (inr h) = inr (Among-append a xs ys h)

pub Among-snoc : {A : Type 0} (a : A) (xs : List A) → Among a (xs ++ a ∷ [])
Among-snoc a [] = inl refl
Among-snoc a (x ∷ xs) = inr (Among-snoc a xs)

pub AllOf-snoc :
    {A : Type 0} (P : A → Type 0) (a : A) (xs : List A) → AllOf P xs → P a → AllOf P (xs ++ a ∷ [])
AllOf-snoc P a [] h p = (p, tt)
AllOf-snoc P a (x ∷ xs) (q, h) p = (q, AllOf-snoc P a xs h p)

pub AllOf-imp :
    {A : Type 0} (P Q : A → Type 0) (xs : List A) → ((a : A) → P a → Q a) → AllOf P xs → AllOf Q xs
AllOf-imp P Q [] f h = tt
AllOf-imp P Q (x ∷ xs) f (p, h) = (f x p, AllOf-imp P Q xs f h)

pub AllOf-Among :
    {A : Type 0} (P : A → Type 0) (a : A) (xs : List A) → AllOf P xs → Among a xs → P a
AllOf-Among P a [] h k = absurd k
AllOf-Among P a (x ∷ xs) (p, h) (inl e) = subst P (sym e) p
AllOf-Among P a (x ∷ xs) (p, h) (inr k) = AllOf-Among P a xs h k
