-- ===== src/Base/Members.antt =====
-- Membership with its place, by recursion, so that the tactics take it apart.
use mathlib.Core.Path.{◌≡◌, refl, ap, sym, subst, ◌∙◌}
use mathlib.Core.Logic.{◌⊎◌, inl, inr}
use mathlib.Core.Bool.{Bool, true, false}
use mathlib.Core.List.{List, [], ◌∷◌, ◌++◌, map}
use native.Mathlib.Omega.{arith}
use fl_op.Base.Tests.{if◌then◌else◌, Bool-cases}
use fl_op.Base.Lists.{keep, any, All}

module _ {A : Type 0} where
  abbrev pub In : A → List A → Type 0
  In a [] = ⊥
  In a (x ∷ xs) = (a ≡ x) ⊎ In a xs

  pub In-append : (a : A) (xs ys : List A) → In a (xs ++ ys) → In a xs ⊎ In a ys
  In-append a [] ys m = inr m
  In-append a (x ∷ xs) ys (inl e) = inl (inl e)
  In-append a (x ∷ xs) ys (inr m) = elim (In-append a xs ys m) [
    | inl l ↦ inl (inr l)
    | inr r ↦ inr r
  ]

  pub In-append_right : (a : A) (xs ys : List A) → In a ys → In a (xs ++ ys)
  In-append_right a [] ys m = m
  In-append_right a (x ∷ xs) ys m = inr (In-append_right a xs ys m)

  pub In-append_left : (a : A) (xs ys : List A) → In a xs → In a (xs ++ ys)
  In-append_left a [] ys m = elim m [ ]
  In-append_left a (x ∷ xs) ys (inl e) = inl e
  In-append_left a (x ∷ xs) ys (inr m) = inr (In-append_left a xs ys m)

  In-if :
      (b : Bool) (a x : A) (xs : List A)
      → In a (if b then x ∷ xs else xs)
      → ((a ≡ x) × (b ≡ true)) ⊎ In a xs
  In-if true a x xs (inl e) = inl (e, refl)
  In-if true a x xs (inr m) = inr m
  In-if false a x xs m = inr m

  pub In-keep : (p : A → Bool) (a : A) (xs : List A) → In a (keep p xs) → In a xs × (p a ≡ true)
  In-keep p a [] m = elim m [ ]
  In-keep p a (x ∷ xs) m = elim (In-if (p x) a x (keep p xs) m) [
    | inl (e, h) ↦ (inl e, ap p e ∙ h)
    | inr m' ↦ let (i, q) = In-keep p a xs m' in (inr i, q)
  ]

  pub In-keep_of : (p : A → Bool) (a : A) (xs : List A) → In a xs → p a ≡ true → In a (keep p xs)
  In-keep_of p a [] m e = elim m [ ]
  In-keep_of p a (x ∷ xs) (inl same) e = rw (sym (ap p same) ∙ e) (inl same)
  In-keep_of p a (x ∷ xs) (inr m) e = elim (Bool-cases (p x)) [
    | inl h ↦ rw h (inr (In-keep_of p a xs m e))
    | inr h ↦ rw h (In-keep_of p a xs m e)
  ]

  -- `any` finds its witness.
  pub any-In : (p : A → Bool) (xs : List A) → any p xs ≡ true → (a : A) × In a xs × (p a ≡ true)
  any-In p [] h = cc
  any-In p (x ∷ xs) h = elim (Bool-cases (p x)) [
    | inl e ↦ (x, inl refl, e)
    | inr e ↦ let (a, m, q) = any-In p xs (rw e at h) in (a, inr m, q)
  ]

  pub In-any : (p : A → Bool) (a : A) (xs : List A) → In a xs → p a ≡ true → any p xs ≡ true
  In-any p a [] m e = elim m [ ]
  In-any p a (x ∷ xs) (inl same) e = rw (← same, e)
  In-any p a (x ∷ xs) (inr m) e = ground (arith, In-any p a xs m e)

  pub All_at : (P : A → Type 0) (xs : List A) (a : A) → All P xs → In a xs → P a
  All_at P [] a h m = elim m [ ]
  All_at P (x ∷ xs) a h (inl same) = subst P (sym same) h.0
  All_at P (x ∷ xs) a h (inr m) = All_at P xs a h.1 m

pub In-map : {A B : Type 0} (f : A → B) (a : A) (xs : List A) → In a xs → In (f a) (map f xs)
In-map f a [] m = elim m [ ]
In-map f a (x ∷ xs) (inl same) = inl (ap f same)
In-map f a (x ∷ xs) (inr m) = inr (In-map f a xs m)
