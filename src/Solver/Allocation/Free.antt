-- ===== src/Solver/Allocation/Free.antt =====
-- Candidates are free: `collect_pair_candidates` of src/fl_op/solver/allocation/candidates.py.
use fl_op.Base.{
  ◌≡◌, ℕ, ◌<◌, Option, none, some, or_else, Bool, false, List, [], ◌∷◌, Text, text_eq, contains,
  ◌==◌, All, arith, Bool-cases, inl, inr, nat_eq, pair_eq,
}
use fl_op.Base.Dict.{get, put}
use fl_op.Base.Strip.{is_empty}
use fl_op.Solver.Allocation.Model.{
  Scores, Order, AllocationState, insert_by, sorted_by, count_of, max_vehicle_assignments,
}
use fl_op.Solver.Allocation.Candidates.{
  Lookups, Candidates, is_free, add_candidate, add_pairs, add_orders, collect_pair_candidates,
}
use fl_op.Solver.Allocation.Greedy.{candidates_for}

-- The pair's implement is unclaimed, and its vehicle has fewer clusters than allowed.
abbrev pub IsFree : AllocationState → ℕ → Text × Text → Type 0
IsFree state max_uses pair =
    (contains pair.1 state.claimed_implements ≡ false)
    × (count_of pair.0 state.vehicle_assignment_count < max_uses)

All-insert_by :
    {A : Type 0} (P : A → Type 0) (before : A → A → Bool) (a : A) (xs : List A)
    → P a
    → All P xs
    → All P (insert_by before a xs)
unfolding insert_by
All-insert_by P before a [] pa all = (pa, all)
All-insert_by P before a (x ∷ xs) pa all = elim (Bool-cases (before x a)) [
  | inl less ↦ rw less (all.0, All-insert_by P before a xs pa all.1)
  | inr more ↦ rw more (pa, all)
]

pub All-sorted_by :
    {A : Type 0} (P : A → Type 0) (before : A → A → Bool) (xs : List A)
    → All P xs
    → All P (sorted_by before xs)
unfolding sorted_by
All-sorted_by P before [] all = all
All-sorted_by P before (x ∷ xs) all =
    All-insert_by P before x (sorted_by before xs) all.0 (All-sorted_by P before xs all.1)

module _ (s : Scores) (l : Lookups s) where
  abbrev AllFree : AllocationState → ℕ → Candidates s l → Type 0
  AllFree state max_uses = All (λ (c : (Text × Text) × s.Score). IsFree state max_uses c.0)

  put-AllFree :
      (state : AllocationState) (max_uses : ℕ) (pair : Text × Text) (score : s.Score)
      (d : Candidates s l)
      → IsFree state max_uses pair
      → AllFree state max_uses d
      → AllFree state max_uses (put pair score d)
  unfolding put
  put-AllFree state max_uses pair score [] free all = (free, all)
  put-AllFree state max_uses pair score ((other, old) ∷ d) free all =
      elim (Bool-cases (other == pair)) [
        | inl same ↦ rw same (all.0, all.1)
        | inr different ↦ rw different (all.0, put-AllFree state max_uses pair score d free all.1)
      ]

  add_candidate-AllFree :
      (order : Order s) (state : AllocationState) (max_uses : ℕ) (pair : ℕ × ℕ) (v i : Option Text)
      (d : Candidates s l)
      → AllFree state max_uses d
      → AllFree state max_uses (add_candidate s l order state max_uses pair v i d)
  unfolding add_candidate
  add_candidate-AllFree order state max_uses (a, b) (some v) (some i) d all =
      elim (Bool-cases (is_free s l state max_uses v i)) [
        | inl free ↦
            rw free (
              put-AllFree state max_uses (v, i) _ d (ground (arith, free), ground (arith, free))
                all)
        | inr taken ↦ rw taken all
      ]
  add_candidate-AllFree order state max_uses (a, b) (some v) none d all = all
  add_candidate-AllFree order state max_uses (a, b) none i d all = all

  add_pairs-AllFree :
      (order : Order s) (state : AllocationState) (max_uses : ℕ) (pairs : List (ℕ × ℕ))
      (d : Candidates s l)
      → AllFree state max_uses d
      → AllFree state max_uses (add_pairs s l order state max_uses pairs d)
  unfolding add_pairs
  add_pairs-AllFree order state max_uses [] d all = all
  add_pairs-AllFree order state max_uses ((v, i) ∷ pairs) d all =
      add_pairs-AllFree order state max_uses pairs _
        (add_candidate-AllFree order state max_uses (v, i) _ _ d all)

  add_orders-AllFree :
      (state : AllocationState) (max_uses : ℕ) (orders : List (Order s)) (d : Candidates s l)
      → AllFree state max_uses d
      → AllFree state max_uses (add_orders s l state max_uses orders d)
  unfolding add_orders
  add_orders-AllFree state max_uses [] d all = all
  add_orders-AllFree state max_uses (order ∷ orders) d all =
      add_orders-AllFree state max_uses orders _ (
        add_pairs-AllFree order state max_uses (or_else (get order.task_id l.feasible_pairs) []) d
          all)

  weaken :
      (state : AllocationState) (d : Candidates s l)
      → AllFree state 1 d
      → AllFree state max_vehicle_assignments d
  weaken state [] all = all
  weaken state (c ∷ d) all = ((all.0.0, ground (arith, all.0.1)), weaken state d all.1)

  -- Every candidate of a cluster is free for one more of the two clusters that a vehicle may have.
  pub candidates_for-AllFree :
      (orders : List (Order s)) (state : AllocationState)
      → All
          (λ (c : (Text × Text) × s.Score). IsFree state max_vehicle_assignments c.0)
          (candidates_for s l orders state)
  unfolding candidates_for collect_pair_candidates
  candidates_for-AllFree orders state =
      elim (Bool-cases (is_empty (collect_pair_candidates s l orders state 1))) [
        | inl nothing ↦ rw nothing (add_orders-AllFree state max_vehicle_assignments orders [] tt)
        | inr something ↦ rw something (weaken state _ (add_orders-AllFree state 1 orders [] tt))
      ]
