-- ===== src/Solver/Operators/Claims.antt =====
-- Claims of backup operators: `_claim_backup_operator` of src/fl_op/solver/enforcement.py.
use mathlib.Core.Path.{subst}
use fl_op.Base.{
  contains, not, ℕ, ◌≡◌, refl, none, some, Bool, true, false, ◌&&◌, ◌||◌, List, [], ◌∷◌, Text,
  text_eq, arith, Bool-cases, inl, inr, any, ltb,
}
use fl_op.Base.Members.{In}
use fl_op.Base.Dict.{Dict}
use fl_op.Solver.Intervals.{Interval, intervals_overlap}
use fl_op.Solver.Intervals.Merge.{covers_half}
use fl_op.Solver.Operators.{
  better, consider, Reading, Operators, Best, eligible, busy_of, scan, choose,
}

overlaps_one :
    (x : ℕ) (l : Interval) (right : List Interval)
    → any (λ (r : Interval). ltb l.0 r.1 && ltb r.0 l.1) right ≡ false
    → covers_half x l ≡ true
    → any (covers_half x) right ≡ false
overlaps_one x l [] apart inside = refl
overlaps_one x (s, e) ((s', e') ∷ right) apart inside =
    ground (arith, overlaps_one x (s, e) right, apart, inside)

-- Intervals that do not overlap have no instant in common.
pub apart :
    (x : ℕ) (left right : List Interval)
    → intervals_overlap left right ≡ false
    → (any (covers_half x) left && any (covers_half x) right) ≡ false
unfolding intervals_overlap
apart x [] right none_meet = refl
apart x (l ∷ left) right none_meet = elim (Bool-cases (covers_half x l)) [
  | inl inside ↦
      let none_here = overlaps_one x l right (left_false _ _ none_meet) inside in
      ground (arith, none_here)
  | inr outside ↦ rw outside (apart x left right (right_false _ _ none_meet))
]
  where
    left_false : (a b : Bool) → (a || b) ≡ false → a ≡ false
    left_false a b e = ground arith

    right_false : (a b : Bool) → (a || b) ≡ false → b ≡ false
    right_false a b e = ground arith

module _ (r : Reading) (main_claimed : List Text) (operation : Text) (all : Operators) where
  -- An operator of the list that may back up the operation.
  abbrev pub MayBackUp : Text → Type 0
  MayBackUp id =
      (certified : List Text) × In (id, certified) all
      × (contains id main_claimed ≡ false)
      × (contains operation certified ≡ true)

  eligible-MayBackUp :
      (o : Text × List Text) → In o all → eligible r operation main_claimed o ≡ true → MayBackUp o.0
  eligible-MayBackUp o m f =
      (o.1, m, left (contains o.0 main_claimed) _ f, right (contains o.0 main_claimed) _ f)
    where
      left : (a b : Bool) → (not a && b) ≡ true → a ≡ false
      left a b e = ground (arith, e)

      right : (a b : Bool) → (not a && b) ≡ true → b ≡ true
      right a b e = ground (arith, e)

  module _ (busy : Dict Text (List Interval)) (demand : List Interval) where
    abbrev pub IsClear : Text → Type 0
    IsClear id = intervals_overlap (busy_of r id busy) demand ≡ false

    -- What the scan may hold: a free operator that is clear, and another one that need not be.
    abbrev pub Sound : Best r × Best r → Type 0
    Sound (free, overlap) =
        ((id : Text) → free.0 ≡ some id → MayBackUp id × IsClear id)
        × ((id : Text) → overlap.0 ≡ some id → MayBackUp id)

    better-Sound :
        (P : Text → Type 0) (o : Text) (free : r.Float) (best : Best r)
        → P o
        → ((id : Text) → best.0 ≡ some id → P id)
        → (id : Text) → (better r o free best).0 ≡ some id
        → P id
    better-Sound P o free (best, score) here before id e = elim (Bool-cases (r.gt free score)) [
      | inl wins ↦ subst P (some_injective (rw wins at e)) here
      | inr loses ↦ before id (rw loses at e)
    ]
      where
        some_injective : some o ≡ some id → o ≡ id
        some_injective q = cc

    consider-Sound :
        (o : Text × List Text) (free : r.Float) (free_best overlap_best : Best r) (fit meets : Bool)
        → In o all
        → eligible r operation main_claimed o ≡ fit
        → intervals_overlap (busy_of r o.0 busy) demand ≡ meets
        → Sound (free_best, overlap_best)
        → Sound (consider r fit meets o.0 free free_best overlap_best)
    unfolding consider
    consider-Sound o free free_best overlap_best false meets m f c sound = sound
    consider-Sound o free free_best overlap_best true true m f c sound =
        (sound.0, better-Sound MayBackUp o.0 free overlap_best (eligible-MayBackUp o m f) sound.1)
    consider-Sound o free free_best overlap_best true false m f c sound = (
      better-Sound (λ id. MayBackUp id × IsClear id) o.0 free free_best
          (eligible-MayBackUp o m f, c) sound.0,
      sound.1,
    )

    pub scan-Sound :
        (free_capacity : Dict Text r.Float) (operators : Operators) (bests : Best r × Best r)
        → ((o : Text × List Text) → In o operators → In o all)
        → Sound bests
        → Sound (scan r operation main_claimed busy demand free_capacity operators bests)
    unfolding scan
    scan-Sound free_capacity [] bests within sound = sound
    scan-Sound free_capacity (o ∷ operators) (free_best, overlap_best) within sound =
        scan-Sound free_capacity operators _ (λ o' m. within o' (inr m))
          (consider-Sound o _ free_best overlap_best _ _ (within o (inl refl)) refl refl sound)

    pub choose-Sound :
        (allow_overlap : Bool) (bests : Best r × Best r) (id : Text)
        → Sound bests
        → (choose r allow_overlap bests).0 ≡ some id
        → MayBackUp id × ((choose r allow_overlap bests).1 ≡ false → IsClear id)
    choose-Sound allow ((some o, s), overlap) id sound e =
        let (backs, clear) = sound.0 id e in (backs, λ q. clear)
    choose-Sound true ((none, s), (best, score)) id sound e = (sound.1 id e, λ q. cc)
    choose-Sound false ((none, s), (best, score)) id sound e = cc
