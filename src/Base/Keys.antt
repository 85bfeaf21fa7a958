-- ===== src/Base/Keys.antt =====
-- Equality of keys as an interface, its instances, and membership in a list of keys.
use Prim.Native.Nat.{ℕ}
use mathlib.Core.Path.{◌≡◌, refl}
use mathlib.Core.Logic.{◌↔◌}
use mathlib.Core.Bool.{Bool, true, false, ◌&&◌, ◌||◌}
use mathlib.Core.List.{List, [], ◌∷◌, ◌++◌}
use native.Mathlib.Omega.{arith}
use fl_op.Base.Tests.{eqb, eqb_iff}

-- A type of keys with the test that Python's `==` makes of them.
pub record Keyed {κ} (K : Type κ) : Type κ where
  pub agrees : K → K → Bool
  pub agrees_iff : (j k : K) → (agrees j k ≡ true) ↔ (j ≡ k)

instance abbrev pub nat_eq : Keyed ℕ
nat_eq = record { agrees = eqb; agrees_iff = eqb_iff }

abbrev pub ◌==◌ {κ} : {K : Type κ} ⦃keyed : Keyed K⦄ → K → K → Bool
◌==◌ ⦃keyed⦄ j k = keyed.agrees j k

infix 50 ◌==◌
pub or_true : (b : Bool) → (b || true) ≡ true
or_true b = ground arith

module _ {ℓ} {A : Type ℓ} ⦃e : Keyed A⦄ where
  pub ==_refl : (a : A) → (a == a) ≡ true
  ==_refl a = (e.agrees_iff a a).1 refl

  pub ==_sym : (a b : A) → (a == b) ≡ (b == a)
  ==_sym a b = ground (arith, e.agrees_iff a b, e.agrees_iff b a)

  abbrev pub list_beq : List A → List A → Bool
  list_beq [] [] = true
  list_beq (x ∷ xs) (y ∷ ys) = x == y && list_beq xs ys
  list_beq _ _ = false

  pub list_beq_iff : (xs ys : List A) → (list_beq xs ys ≡ true) ↔ (xs ≡ ys)
  list_beq_iff [] [] = ((λ _. refl), (λ _. refl))
  list_beq_iff [] (y ∷ ys) = ground arith
  list_beq_iff (x ∷ xs) [] = ground arith
  list_beq_iff (x ∷ xs) (y ∷ ys) = ground (arith, e.agrees_iff x y, list_beq_iff xs ys)

  instance abbrev pub list_eq : Keyed (List A)
  list_eq = record { agrees = list_beq; agrees_iff = list_beq_iff }

  -- `a in xs`
  unfoldable pub contains : A → List A → Bool
  contains a [] = false
  contains a (x ∷ xs) = x == a || contains a xs

  pub contains-append :
      (a : A) (xs ys : List A) → contains a (xs ++ ys) ≡ (contains a xs || contains a ys)
  unfolding contains
  contains-append a [] ys = refl
  contains-append a (x ∷ xs) ys = ground (arith, contains-append a xs ys)

  -- No element is listed twice.
  abbrev pub Distinct : List A → Type 0
  Distinct [] = Unit
  Distinct (x ∷ xs) = (contains x xs ≡ false) × Distinct xs

  pub Distinct-snoc :
      (xs : List A) (a : A) → contains a xs ≡ false → Distinct xs → Distinct (xs ++ a ∷ [])
  unfolding contains
  Distinct-snoc [] a h d = (refl, tt)
  Distinct-snoc (x ∷ xs) a h d =
      ground (
        arith,
        Distinct-snoc xs a,
        contains-append x xs (a ∷ []),
        e.agrees_iff x a,
        e.agrees_iff a x,
      )

  pub contains_head : (a : A) (xs : List A) → contains a (a ∷ xs) ≡ true
  unfolding contains
  contains_head a xs = rw (==_refl a)

  pub Distinct-append :
      (xs ys : List A)
      → Distinct xs
      → Distinct ys
      → ((a : A) → contains a ys ≡ true → contains a xs ≡ false)
      → Distinct (xs ++ ys)
  unfolding contains
  Distinct-append [] ys dx dy h = dy
  Distinct-append (x ∷ xs) ys dx dy h = (
    ground (arith, contains-append x xs ys, h x, ==_refl x),
    Distinct-append xs ys dx.1 dy (λ a m. ground (arith, h a m)),
  )

module _ {ℓ κ} {A : Type ℓ} {B : Type κ} ⦃e : Keyed A⦄ ⦃f : Keyed B⦄ where
  abbrev pair_beq : A × B → A × B → Bool
  pair_beq (a, b) (c, d) = a == c && b == d

  pub pair_beq_iff : (p q : A × B) → (pair_beq p q ≡ true) ↔ (p ≡ q)
  pair_beq_iff (a, b) (c, d) = ground (arith, e.agrees_iff a c, f.agrees_iff b d)

  instance abbrev pub pair_eq : Keyed (A × B)
  pair_eq = record { agrees = pair_beq; agrees_iff = pair_beq_iff }
