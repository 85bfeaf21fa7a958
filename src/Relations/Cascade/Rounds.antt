-- ===== src/Relations/Cascade/Rounds.antt =====
-- One round of the cascade: src/fl_op/solver/task_relations.py.
use fl_op.Base.{
  All, contains_head, ◌+◌, ◌<◌, ◌≡◌, refl, true, false, List, [], ◌∷◌, ◌++◌, length, Text, text_eq,
  contains, contains-append, arith, Bool-cases, inl, inr, ◌⊎◌,
}
use fl_op.Base.Strip.{is_empty}
use fl_op.Base.Members.{In}
use fl_op.Relations.Order.{Order, Infeasible, excluded_before_solve}
use fl_op.Relations.Cascade.{is_cut, Round, run_round}

-- Each round takes every order to one side.
pub length-run_round :
    (excluded : List Text) (orders : List Order)
    → length (run_round excluded orders).remaining + length (run_round excluded orders).cut
      ≡ length orders
unfolding run_round
length-run_round excluded [] = omega arith
length-run_round excluded (o ∷ orders) =
    ground (
      arith,
      length-run_round excluded orders,
      length-run_round (excluded ++ o.task_id ∷ []) orders,
    )

-- Each id that starts out excluded stays so.
pub excluded_grows :
    (t : Text) (excluded : List Text) (orders : List Order)
    → contains t excluded ≡ true
    → contains t (run_round excluded orders).excluded ≡ true
unfolding run_round
excluded_grows t excluded [] h = h
excluded_grows t excluded (o ∷ orders) h = ground (
  arith,
  excluded_grows t excluded orders h,
  excluded_grows t (excluded ++ o.task_id ∷ []) orders,
  contains-append t excluded (o.task_id ∷ []),
)

-- What a round makes of an order that it cuts, with the ids excluded at its end.
abbrev pub IsCut : Order → Round → Type 0
IsCut p r =
    In (excluded_before_solve p) r.cut
    × (is_empty p.predecessor ≡ false)
    × (contains p.predecessor r.excluded ≡ true)
    × (contains p.task_id r.excluded ≡ true)

pub IsCut-head :
    (o : Order) (excluded : List Text) (orders : List Order)
    → is_cut excluded o ≡ true
    → IsCut o (run_round excluded (o ∷ orders))
unfolding run_round
IsCut-head o excluded orders cut = rw cut (
  inl refl,
  ground arith,
  excluded_grows o.predecessor (excluded ++ o.task_id ∷ []) orders
      (ground (arith, contains-append o.predecessor excluded (o.task_id ∷ []))),
  excluded_grows o.task_id (excluded ++ o.task_id ∷ []) orders (
      ground
        (arith, contains-append o.task_id excluded (o.task_id ∷ []), contains_head o.task_id [])),
)

-- After a round every order remains or is cut.
pub remains_or_IsCut :
    (p : Order) (excluded : List Text) (orders : List Order)
    → In p orders
    → In p (run_round excluded orders).remaining ⊎ IsCut p (run_round excluded orders)
unfolding run_round
remains_or_IsCut p excluded [] m = elim m [ ]
remains_or_IsCut p excluded (o ∷ orders) (inl same) = elim (Bool-cases (is_cut excluded o)) [
  | inl cut ↦ rw same (inr (IsCut-head o excluded orders cut))
  | inr free ↦ rw free (inl (inl same))
]
remains_or_IsCut p excluded (o ∷ orders) (inr m) = ground (
  arith,
  remains_or_IsCut p excluded orders m,
  remains_or_IsCut p (excluded ++ o.task_id ∷ []) orders m,
)

-- A round that cuts nothing changes nothing, and no order that remains depends on an excluded one.
pub quiet_round :
    (excluded : List Text) (orders : List Order)
    → is_empty (run_round excluded orders).cut ≡ true
    → ((run_round excluded orders).excluded ≡ excluded)
      × ((run_round excluded orders).remaining ≡ orders)
      × All (λ o. is_cut excluded o ≡ false) orders
unfolding run_round
quiet_round excluded [] h = (refl, refl, tt)
quiet_round excluded (o ∷ orders) h = ground (arith, quiet_round excluded orders)

-- What remains was there before.
pub In-remaining :
    (p : Order) (excluded : List Text) (orders : List Order)
    → In p (run_round excluded orders).remaining
    → In p orders
unfolding run_round
In-remaining p excluded [] m = m
In-remaining p excluded (o ∷ orders) m =
    ground
      (arith, In-remaining p excluded orders, In-remaining p (excluded ++ o.task_id ∷ []) orders)

pub length_pos : (xs : List Infeasible) → is_empty xs ≡ false → 0 < length xs
length_pos [] h = cc
length_pos (x ∷ xs) h = omega arith
