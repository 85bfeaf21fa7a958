-- ===== src/Solver/Intervals/Merge.antt =====
-- Merging changes no set: src/fl_op/solver/restrictions.py, src/fl_op/solver/enforcement.py.
use fl_op.Base.{
  ℕ, ◌+◌, ◌≤◌, ◌≡◌, refl, ap, ◌∙◌, max, Bool, true, false, ◌&&◌, ◌||◌, List, [], ◌∷◌, arith,
  Bool-cases, inl, inr, keep, any, All, ltb, leb,
}
use fl_op.Solver.Allocation.Model.{sorted_by, insert_by}
use fl_op.Solver.Intervals.{
  Interval, interval_lt, merge_from, merge_sorted, merge_intervals, merge_busy,
}

-- Whether an instant lies in a closed interval, or in a half-open one.
abbrev pub covers : ℕ → Interval → Bool
covers x (s, e) = leb s x && leb x e

abbrev pub covers_half : ℕ → Interval → Bool
covers_half x (s, e) = leb s x && ltb x e

-- The later intervals start no earlier.
abbrev Sorted : List Interval → Type 0
Sorted [] = Unit
Sorted ((s, e) ∷ l) = All (λ (i : Interval). s ≤ i.0) l × Sorted l

insert_by-All :
    (P : Interval → Type 0) (i : Interval) (l : List Interval)
    → P i
    → All P l
    → All P (insert_by interval_lt i l)
unfolding insert_by
insert_by-All P i [] p all = (p, tt)
insert_by-All P i (j ∷ l) p all = elim (Bool-cases (interval_lt j i)) [
  | inl before ↦ rw before (all.0, insert_by-All P i l p all.1)
  | inr after ↦ rw after (p, all)
]

weaken :
    (s s' : ℕ) (l : List Interval)
    → s ≤ s'
    → All (λ (i : Interval). s' ≤ i.0) l
    → All (λ (i : Interval). s ≤ i.0) l
weaken s s' [] h all = tt
weaken s s' (i ∷ l) h all = (omega (arith, all.0), weaken s s' l h all.1)

not_before : (i j : Interval) → interval_lt j i ≡ false → i.0 ≤ j.0
not_before (s, e) (s', e') after = ground arith

before_le : (i j : Interval) → interval_lt j i ≡ true → j.0 ≤ i.0
before_le (s, e) (s', e') before = ground arith

insert_by-Sorted :
    (i : Interval) (l : List Interval) → Sorted l → Sorted (insert_by interval_lt i l)
unfolding insert_by
insert_by-Sorted i [] sorted = (tt, tt)
insert_by-Sorted i (j ∷ l) sorted = elim (Bool-cases (interval_lt j i)) [
  | inl before ↦ rw before (
    insert_by-All (λ (k : Interval). j.0 ≤ k.0) i l (before_le i j before) sorted.0,
    insert_by-Sorted i l sorted.1,
  )
  | inr after ↦
      rw after ((not_before i j after, weaken i.0 j.0 l (not_before i j after) sorted.0), sorted)
]

sorted_by-Sorted : (l : List Interval) → Sorted (sorted_by interval_lt l)
unfolding sorted_by
sorted_by-Sorted [] = tt
sorted_by-Sorted (i ∷ l) = insert_by-Sorted i (sorted_by interval_lt l) (sorted_by-Sorted l)

any-insert_by :
    (p : Interval → Bool) (i : Interval) (l : List Interval)
    → any p (insert_by interval_lt i l) ≡ (p i || any p l)
unfolding insert_by
any-insert_by p i [] = refl
any-insert_by p i (j ∷ l) = ground (arith, any-insert_by p i l)

any-sorted_by :
    (p : Interval → Bool) (l : List Interval) → any p (sorted_by interval_lt l) ≡ any p l
unfolding sorted_by
any-sorted_by p [] = refl
any-sorted_by p (i ∷ l) =
    any-insert_by p i (sorted_by interval_lt l) ∙ ap (λ b. p i || b) (any-sorted_by p l)

-- A notion of lying in an interval for which two intervals that join are together their hull.
abbrev Joins : ℕ → (Interval → Bool) → Type 0
Joins gap inside =
    (s e s' e' : ℕ)
    → s ≤ s'
    → s' ≤ e + gap
    → inside (s, max e e') ≡ (inside (s, e) || inside (s', e'))

any-merge_from :
    (gap : ℕ) (inside : Interval → Bool) (current : Interval) (l : List Interval)
    → Joins gap inside
    → Sorted (current ∷ l)
    → any inside (merge_from gap current l) ≡ (inside current || any inside l)
unfolding merge_from
any-merge_from gap inside current [] joins sorted = refl
any-merge_from gap inside (s, e) ((s', e') ∷ l) joins sorted =
    elim (Bool-cases (leb s' (e + gap))) [
      | inl near ↦ rw near (
          any-merge_from gap inside (s, max e e') l joins (sorted.0.1, sorted.1.1)
          ∙ ap (λ b. b || any inside l) (joins s e s' e' sorted.0.0 (ground arith))
          ∙ or_assoc (inside (s, e)) (inside (s', e')) (any inside l))
      | inr far ↦
          rw far
            (ap (λ b. inside (s, e) || b) (any-merge_from gap inside (s', e') l joins sorted.1))
    ]
  where
    or_assoc : (a b c : Bool) → ((a || b) || c) ≡ (a || (b || c))
    or_assoc a b c = ground arith

any-merge_sorted :
    (gap : ℕ) (inside : Interval → Bool) (l : List Interval)
    → Joins gap inside
    → Sorted l
    → any inside (merge_sorted gap l) ≡ any inside l
unfolding merge_sorted
any-merge_sorted gap inside [] joins sorted = refl
any-merge_sorted gap inside (i ∷ l) joins sorted = any-merge_from gap inside i l joins sorted

covers_valid :
    (x : ℕ) (l : List Interval)
    → any (covers x) (keep (λ (i : Interval). leb i.0 i.1) l) ≡ any (covers x) l
covers_valid x [] = refl
covers_valid x ((s, e) ∷ l) = ground (arith, covers_valid x l)

covers-Joins : (x : ℕ) → Joins 1 (covers x)
covers-Joins x s e s' e' h near = ground arith

covers_half-Joins : (x : ℕ) → Joins 0 (covers_half x)
covers_half-Joins x s e s' e' h near = ground arith

pub any-merge_intervals :
    (x : ℕ) (l : List Interval) → any (covers x) (merge_intervals l) ≡ any (covers x) l
unfolding merge_intervals
any-merge_intervals x l =
    let valid = keep (λ (i : Interval). leb i.0 i.1) l in
    any-merge_sorted 1 (covers x) (sorted_by interval_lt valid) (covers-Joins x)
      (sorted_by-Sorted valid)
    ∙ any-sorted_by (covers x) valid
    ∙ covers_valid x l

pub any-merge_busy :
    (x : ℕ) (l : List Interval) → any (covers_half x) (merge_busy l) ≡ any (covers_half x) l
unfolding merge_busy
any-merge_busy x l =
    any-merge_sorted 0 (covers_half x) (sorted_by interval_lt l) (covers_half-Joins x)
      (sorted_by-Sorted l)
    ∙ any-sorted_by (covers_half x) l
