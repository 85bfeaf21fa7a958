-- ===== src/Solver/Conflict/Attribution.antt =====
-- What the attribution of src/fl_op/solver/cluster/conflict.py means.
use fl_op.Base.{
  ◌≡◌, ◌≤◌, ap, refl, inl, inr, ℕ, Bool, true, false, not, List, [], ◌∷◌, Text, arith, Bool-cases,
  All, eqb, if◌then◌else◌,
}
use fl_op.Base.Dict.{Dict}
use fl_op.Solver.Allocation.Model.{sorted_by, insert_by}
use fl_op.Solver.Conflict.{
  capacity_of, Utilizations, Binding, nothing_binds, capacity_unnamed, capacity_of, solve_budget,
  model_infeasible, time, fleet, other, capacity_binding, fullest, first_of, by_name, peak_capacity,
  attribute, vehicle_utilization_of, build_resource_conflict,
}

-- What floats without NaN do.
pub record IsOrdered (u : Utilizations) : Type 0 where
  pub irreflexive : (a : u.Float) → u.lt a a ≡ false
  pub transitive : (a b c : u.Float) → u.lt a b ≡ false → u.lt b c ≡ false → u.lt a c ≡ false
  pub asymmetric : (a b : u.Float) → u.lt a b ≡ true → u.lt b a ≡ false
  pub le_lt : (a b : u.Float) → u.le a b ≡ not (u.lt b a)

split_insert :
    {A : Type 0} (P : A → Type 0) (a x : A) (xs inserted : List A) (b : Bool)
    → (All P inserted → P a × All P xs)
    → All P (if b then x ∷ inserted else a ∷ x ∷ xs)
    → P a × All P (x ∷ xs)
split_insert P a x xs inserted true later all = let rest = later all.1 in (rest.0, (all.0, rest.1))
split_insert P a x xs inserted false later all = (all.0, all.1)

All-insert_inv :
    {A : Type 0} (P : A → Type 0) (before : A → A → Bool) (a : A) (xs : List A)
    → All P (insert_by before a xs)
    → P a × All P xs
unfolding insert_by
All-insert_inv P before a [] all = (all.0, tt)
All-insert_inv P before a (x ∷ xs) all =
    split_insert P a x xs (insert_by before a xs) (before x a) (All-insert_inv P before a xs) all

All-sorted_inv :
    {A : Type 0} (P : A → Type 0) (before : A → A → Bool) (xs : List A)
    → All P (sorted_by before xs)
    → All P xs
unfolding sorted_by
All-sorted_inv P before [] all = tt
All-sorted_inv P before (x ∷ xs) all =
    let rest = All-insert_inv P before x (sorted_by before xs) all in
    (rest.0, All-sorted_inv P before xs rest.1)

-- Which of the tests named the binding.
abbrev pub rank : Binding → ℕ
rank nothing_binds = 0
rank capacity_unnamed = 1
rank (capacity_of _) = 1
rank time = 2
rank fleet = 3
rank other = 4
rank solve_budget = 5
rank model_infeasible = 5

module _ (u : Utilizations) (o : IsOrdered u) where
  -- No entry is above the peak.
  abbrev pub IsPeak : u.Float → Dict Text u.Float → Type 0
  IsPeak peak = All (λ (c : Text × u.Float). u.lt peak c.1 ≡ false)

  fullest-IsPeak :
      (best : Text × u.Float) (d : Dict Text u.Float)
      → (u.lt (fullest u best d).1 best.1 ≡ false) × IsPeak (fullest u best d).1 d
  unfolding fullest
  fullest-IsPeak best [] = (o.irreflexive best.1, tt)
  fullest-IsPeak best (c ∷ d) =
      let next = if u.lt best.1 c.1 then c else best in
      let ih = fullest-IsPeak next d in
      let peak = (fullest u next d).1 in
      (
        ground (arith, ih.0, o.transitive peak c.1 best.1, o.asymmetric best.1 c.1),
        (ground (arith, ih.0, o.transitive peak best.1 c.1), ih.1),
      )

  first_of-IsPeak : (d : Dict Text u.Float) → IsPeak (first_of u d).1 d
  first_of-IsPeak [] = tt
  first_of-IsPeak (best ∷ d) = fullest-IsPeak best d

  peak_capacity-IsPeak : (d : Dict Text u.Float) → IsPeak (peak_capacity u d).1 d
  unfolding peak_capacity
  peak_capacity-IsPeak d =
      All-sorted_inv (λ (c : Text × u.Float). u.lt (peak_capacity u d).1 c.1 ≡ false) (by_name u) d
        (first_of-IsPeak (sorted_by (by_name u) d))

  below_threshold :
      (threshold peak : u.Float) (d : Dict Text u.Float)
      → u.le threshold peak ≡ false
      → IsPeak peak d
      → All (λ (c : Text × u.Float). u.lt c.1 threshold ≡ true) d
  below_threshold threshold peak [] low is_peak = tt
  below_threshold threshold peak ((m, f) ∷ d) low is_peak = (
    ground (arith, o.le_lt threshold peak, o.transitive peak f threshold is_peak.0, low),
    below_threshold threshold peak d low is_peak.1,
  )

  capacity_binding-rank : (material : Text) → rank (capacity_binding u material) ≡ 1
  capacity_binding-rank [] = refl
  capacity_binding-rank (c ∷ s) = refl

  tight_binding :
      (n : ℕ) (vehicle time_used : u.Float) (material : Text) (peak threshold : u.Float)
      → eqb n 0 ≡ false
      → u.le threshold peak ≡ true
      → (attribute u n vehicle time_used (material, peak) threshold).0 ≡ capacity_binding u material
  unfolding attribute
  tight_binding n vehicle time_used material peak threshold dropped tight =
      rw dropped (rw tight refl)

  attribute_low :
      (n : ℕ) (vehicle time_used : u.Float) (peak : Text × u.Float) (threshold : u.Float)
      → eqb n 0 ≡ false
      → 2 ≤ rank (attribute u n vehicle time_used peak threshold).0
      → u.le threshold peak.1 ≡ false
  unfolding attribute
  attribute_low n vehicle time_used (material, peak) threshold dropped named =
      elim (Bool-cases (u.le threshold peak)) [
        | inl tight ↦ ground (
          arith,
          capacity_binding-rank material,
          ap rank (tight_binding n vehicle time_used material peak threshold dropped tight),
          named,
        )
        | inr loose ↦ loose
      ]

  -- Where no float is NaN: when tasks are dropped and a resource that is ranked after the capacities
  -- is named (the time, the fleet, or other), every material's utilization is below the threshold.
  pub named_means_no_capacity :
      (n_unserved n_vehicles n_used : ℕ) (time_used threshold : u.Float)
      (capacity : Dict Text u.Float)
      → eqb n_unserved 0 ≡ false
      → 2
        ≤ rank
            (build_resource_conflict u n_unserved n_vehicles n_used time_used capacity
              threshold).binding_resource
      → All (λ (c : Text × u.Float). u.lt c.1 threshold ≡ true) capacity
  unfolding build_resource_conflict attribute
  named_means_no_capacity n v used time_used threshold capacity dropped named =
      below_threshold threshold (peak_capacity u capacity).1 capacity
        (attribute_low n (vehicle_utilization_of u used v) time_used (peak_capacity u capacity)
          threshold dropped named)
        (peak_capacity-IsPeak capacity)
