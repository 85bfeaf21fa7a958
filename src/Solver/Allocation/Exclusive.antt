-- ===== src/Solver/Allocation/Exclusive.antt =====
-- What a reservation takes: `reserve_best_candidates` of
-- src/fl_op/solver/allocation/candidates.py.
use fl_op.Base.{
  ◌≡◌, refl, ◌∙◌, ap, ℕ, ◌+◌, ◌<◌, ◌≤◌, Bool, true, false, ◌||◌, List, [], ◌∷◌, ◌++◌, Text, text_eq,
  contains, leb, length, ◌==◌, All, arith, Bool-cases, inl, inr, sym, Distinct, Distinct-snoc,
  contains-append,
}
use fl_op.Base.Dict.{Dict, put, get-put}
use fl_op.Solver.Allocation.Model.{AllocationState, set_add, count_of, max_vehicle_assignments}
use fl_op.Solver.Allocation.Candidates.{Reservation, reserve_pair, is_reserved, reserve_loop}
use fl_op.Solver.Allocation.Free.{IsFree}

-- The implements and the vehicles of an allocation.
abbrev pub implements_in : Dict Text (List Text) → List Text
implements_in [] = []
implements_in ((v, implements) ∷ d) = implements ++ implements_in d

abbrev pub vehicles_in : Dict Text (List Text) → List Text
vehicles_in [] = []
vehicles_in ((v, implements) ∷ d) = v ∷ vehicles_in d

or_false_left : (a b : Bool) → (a || b) ≡ false → a ≡ false
or_false_left a b e = ground (arith, e)

++_assoc : (xs ys zs : List Text) → (xs ++ ys) ++ zs ≡ xs ++ (ys ++ zs)
++_assoc [] ys zs = refl
++_assoc (x ∷ xs) ys zs = ap (λ rest. x ∷ rest) (++_assoc xs ys zs)

implements_in-put :
    (v i : Text) (d : Dict Text (List Text))
    → contains v (vehicles_in d) ≡ false
    → implements_in (put v (i ∷ []) d) ≡ implements_in d ++ i ∷ []
unfolding put contains
implements_in-put v i [] new = refl
implements_in-put v i ((w, taken) ∷ d) new = rw (or_false_left (w == v) _ new) (
    ap (λ rest. taken ++ rest) (implements_in-put v i d (ground (arith, new)))
    ∙ sym (++_assoc taken (implements_in d) (i ∷ [])))

vehicles_in-put :
    (v i : Text) (d : Dict Text (List Text))
    → contains v (vehicles_in d) ≡ false
    → vehicles_in (put v (i ∷ []) d) ≡ vehicles_in d ++ v ∷ []
unfolding put contains
vehicles_in-put v i [] new = refl
vehicles_in-put v i ((w, taken) ∷ d) new =
    rw (or_false_left (w == v) _ new)
      (ap (λ rest. w ∷ rest) (vehicles_in-put v i d (ground (arith, new))))

length-put_new :
    (v : Text) (taken : List Text) (d : Dict Text (List Text))
    → contains v (vehicles_in d) ≡ false
    → length (put v taken d) ≡ length d + 1
unfolding put contains
length-put_new v taken [] new = refl
length-put_new v taken ((w, old) ∷ d) new =
    rw (or_false_left (w == v) _ new) (ground (arith, length-put_new v taken d, new))

contains_snoc :
    (a b : Text) (xs : List Text) → contains a (xs ++ b ∷ []) ≡ (b == a || contains a xs)
unfolding contains
contains_snoc a b xs = ground (arith, contains-append a xs (b ∷ []))

pub contains-set_add :
    (a b : Text) (s : List Text) → contains a (set_add b s) ≡ (b == a || contains a s)
unfolding contains set_add
contains-set_add a b s = ground (arith, text_eq.agrees_iff b a)

abbrev pub one_if : Bool → ℕ
one_if true = 1
one_if false = 0

-- What holds of a reservation that began in `start` and takes at most `limit` vehicles.
pub record IsExclusive (start : AllocationState) (limit : ℕ) (r : Reservation) : Type 0 where
  pub vehicles : Distinct (vehicles_in r.allocated)
  pub implements : Distinct (implements_in r.allocated)
  pub vehicle_known :
      (v : Text) → contains v (vehicles_in r.allocated) ≡ contains v r.reserved_vehicles
  pub implement_known :
      (i : Text) → contains i (implements_in r.allocated) ≡ contains i r.reserved_implements
  pub claimed :
      (i : Text)
      → contains i r.state.claimed_implements
        ≡ (contains i (implements_in r.allocated) || contains i start.claimed_implements)
  pub was_unclaimed :
      (i : Text)
      → contains i (implements_in r.allocated) ≡ true
      → contains i start.claimed_implements ≡ false
  pub counted :
      (v : Text)
      → count_of v r.state.vehicle_assignment_count
        ≡ count_of v start.vehicle_assignment_count + one_if (contains v (vehicles_in r.allocated))
  pub had_room :
      (v : Text)
      → contains v (vehicles_in r.allocated) ≡ true
      → count_of v start.vehicle_assignment_count < max_vehicle_assignments
  pub operators : r.state.claimed_operators ≡ start.claimed_operators
  pub bounded : length r.allocated ≤ limit

reserve_pair-IsExclusive :
    (start : AllocationState) (limit : ℕ) (v i : Text) (r : Reservation)
    → IsExclusive start limit r
    → IsFree start max_vehicle_assignments (v, i)
    → is_reserved v i r ≡ false
    → length r.allocated < limit
    → IsExclusive start limit (reserve_pair v i r)
unfolding reserve_pair
reserve_pair-IsExclusive start limit v i r x free new room =
    let v_new = x.vehicle_known v in
    let i_new = x.implement_known i in
    let vs = vehicles_in-put v i r.allocated (ground arith) in
    let is = implements_in-put v i r.allocated (ground arith) in
    record {
      vehicles = rw vs (Distinct-snoc (vehicles_in r.allocated) v (ground arith) x.vehicles);
      implements = rw is (Distinct-snoc (implements_in r.allocated) i (ground arith) x.implements);
      vehicle_known = λ w. rw vs (
          rw (contains_snoc w v (vehicles_in r.allocated)) (
            rw (contains-set_add w v r.reserved_vehicles)
              (ap (λ b. v == w || b) (x.vehicle_known w))));
      implement_known = λ j. rw is (
          rw (contains_snoc j i (implements_in r.allocated)) (
            rw (contains-set_add j i r.reserved_implements)
              (ap (λ b. i == j || b) (x.implement_known j))));
      claimed = λ j. rw is (
          rw (contains_snoc j i (implements_in r.allocated))
            (rw (contains-set_add j i r.state.claimed_implements) (ground (arith, x.claimed j))));
      was_unclaimed = λ j m. elim (Bool-cases (i == j)) [
        | inl same ↦ ground (arith, text_eq.agrees_iff i j, free.0)
        | inr other ↦ x.was_unclaimed j (
            ground
              (arith, other, m, ap (contains j) is, contains_snoc j i (implements_in r.allocated)))
      ];
      counted = λ w. rw vs (
          rw (contains_snoc w v (vehicles_in r.allocated)) (
            rw
              (get-put v w (count_of v r.state.vehicle_assignment_count + 1)
                r.state.vehicle_assignment_count)
              (elim (Bool-cases (v == w)) [
                | inl same ↦
                    let e = (text_eq.agrees_iff v w).0 same in
                    rw same (
                      ground (
                        arith,
                        x.counted v,
                        v_new,
                        ap (λ u. count_of u start.vehicle_assignment_count) e,
                      ))
                | inr other ↦ rw other (x.counted w)
              ])));
      had_room = λ w m. elim (Bool-cases (v == w)) [
        | inl same ↦ ground (arith, text_eq.agrees_iff v w, free.1)
        | inr other ↦ x.had_room w (
            ground
              (arith, other, m, ap (contains w) vs, contains_snoc w v (vehicles_in r.allocated)))
      ];
      operators = x.operators;
      bounded = ground (arith, length-put_new v (i ∷ []) r.allocated);
    }

pub reserve_loop-IsExclusive :
    (start : AllocationState) (limit : ℕ) (pairs : List (Text × Text)) (r : Reservation)
    → IsExclusive start limit r
    → All (IsFree start max_vehicle_assignments) pairs
    → IsExclusive start limit (reserve_loop limit pairs r)
unfolding reserve_loop
reserve_loop-IsExclusive start limit [] r x free = x
reserve_loop-IsExclusive start limit ((v, i) ∷ pairs) r x free =
    elim (Bool-cases (leb limit (length r.allocated))) [
      | inl full ↦ rw full x
      | inr room ↦ elim (Bool-cases (is_reserved v i r)) [
        | inl old ↦ rw room (rw old (reserve_loop-IsExclusive start limit pairs r x free.1))
        | inr new ↦ rw room (
            rw new (
              reserve_loop-IsExclusive start limit pairs (reserve_pair v i r)
                (reserve_pair-IsExclusive start limit v i r x free.0 new (ground (arith, room)))
                free.1))
      ]
    ]

abbrev pub nothing_reserved : AllocationState → Reservation
nothing_reserved start = record {
  allocated = [];
  reserved_vehicles = [];
  reserved_implements = [];
  state = start;
}

pub nothing_reserved-IsExclusive :
    (start : AllocationState) (limit : ℕ) → IsExclusive start limit (nothing_reserved start)
unfolding contains
nothing_reserved-IsExclusive start limit = record {
  vehicles = tt;
  implements = tt;
  vehicle_known = λ v. refl;
  implement_known = λ i. refl;
  claimed = λ i. refl;
  was_unclaimed = λ i m. ground (arith, m);
  counted = λ v. omega arith;
  had_room = λ v m. ground (arith, m);
  operators = refl;
  bounded = omega arith;
}
