-- ===== src/Solver/Conflict/Tests.antt =====
-- Attribution on concrete utilizations: src/fl_op/solver/cluster/conflict.py.
use fl_op.Base.{◌≡◌, refl, ◌≤◌, ℕ, ◌*◌, ◌/◌, true, [], ◌∷◌, Text, codes, ltb, leb, All, arith}
use fl_op.Base.Dict.{Dict}
use fl_op.Solver.Conflict.{Utilizations, fleet, build_resource_conflict}
use fl_op.Solver.Conflict.Attribution.{IsOrdered, rank, named_means_no_capacity}

abbrev percent : Utilizations
percent = record {
  Float = ℕ;
  zero_f = 0;
  one_f = 100;
  ratio = λ a b. a * 100 / b;
  lt = ltb;
  le = leb;
  round = λ a _. a;
}

percent-IsOrdered : IsOrdered percent
percent-IsOrdered = record {
  irreflexive = λ a. ground arith;
  transitive = λ a b c ab bc. ground arith;
  asymmetric = λ a b ab. ground arith;
  le_lt = λ a b. ground arith;
}

abbrev materials : Dict Text ℕ
materials = (codes "seed", 40) ∷ (codes "fuel", 70) ∷ []

fleet_named : (build_resource_conflict percent 1 2 2 30 materials 90).binding_resource ≡ fleet
unfolding build_resource_conflict
fleet_named = refl

ranked : 2 ≤ rank (build_resource_conflict percent 1 2 2 30 materials 90).binding_resource
unfolding build_resource_conflict
ranked = omega arith

named_means_no_capacity_example : All (λ (c : Text × ℕ). ltb c.1 90 ≡ true) materials
named_means_no_capacity_example =
    named_means_no_capacity percent percent-IsOrdered 1 2 2 30 90 materials refl ranked
