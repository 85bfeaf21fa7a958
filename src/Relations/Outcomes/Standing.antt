-- ===== src/Relations/Outcomes/Standing.antt =====
-- Withdrawing records and what is served without them: src/fl_op/solver/task_relations.py.
use fl_op.Base.{
  ◌+◌, ◌≡◌, refl, sym, ap, ◌∙◌, Bool, true, false, not, List, [], ◌∷◌, length, Text, text_eq, ◌==◌,
  ==_refl, contains, keep, All, arith, inl, inr, Bool-cases,
}
use fl_op.Base.Strip.{is_empty}
use fl_op.Base.Members.{In, In-keep_of}
use fl_op.Relations.Order.{Order}
use fl_op.Relations.Outcomes.{
  Dispatch, dispatch_eq, dispatch_beq, predecessor_of, served, violates, remove_first, remove_all,
}

pub remove_all-skip :
    (ds : List Dispatch) (x : Dispatch) (xs : List Dispatch)
    → All (λ d. (x == d) ≡ false) ds
    → remove_all ds (x ∷ xs) ≡ x ∷ remove_all ds xs
unfolding remove_all
remove_all-skip [] x xs h = refl
remove_all-skip (d ∷ ds) x xs h =
    rw (h.0, remove_all) (remove_all-skip ds x (remove_first d xs) h.1)

pub true_clash : false ≡ true → ⊥
true_clash e = cc

pub remove_first_self : (x : Dispatch) (xs : List Dispatch) → remove_first x (x ∷ xs) ≡ xs
unfolding remove_first
remove_first_self x xs = let e : dispatch_beq x x ≡ true = ==_refl x in rw e

module _ (q : Dispatch → Bool) where
  pub apart :
      (x : Dispatch) (xs : List Dispatch) → q x ≡ false → All (λ d. (x == d) ≡ false) (keep q xs)
  apart x [] h = tt
  apart x (y ∷ xs) h = elim (Bool-cases (q y)) [
    | inl e ↦ rw e (differs y e, apart x xs h)
    | inr e ↦ rw e (apart x xs h)
  ]
    where
      differs : (y : Dispatch) → q y ≡ true → (x == y) ≡ false
      differs y e = elim (Bool-cases (x == y)) [
        | inl same ↦ absurd (true_clash (sym h ∙ ap q ((dispatch_eq.agrees_iff x y).0 same) ∙ e))
        | inr d ↦ d
      ]

  -- Removing the violating records one by one is a filter, equal records included.
  pub remove_all-keep : (xs : List Dispatch) → remove_all (keep q xs) xs ≡ keep (λ d. not (q d)) xs
  unfolding remove_all
  remove_all-keep [] = refl
  remove_all-keep (x ∷ xs) = elim (Bool-cases (q x)) [
    | inl e ↦ rw e (ap (remove_all (keep q xs)) (remove_first_self x xs) ∙ remove_all-keep xs)
    | inr e ↦
        rw e
          (remove_all-skip (keep q xs) x xs (apart x xs e) ∙ ap (λ l. x ∷ l) (remove_all-keep xs))
  ]

  pub length-keep_both :
      (xs : List Dispatch) → length (keep (λ d. not (q d)) xs) + length (keep q xs) ≡ length xs
  length-keep_both [] = omega arith
  length-keep_both (x ∷ xs) = ground (arith, length-keep_both xs)

-- One list of records lies in another.
abbrev pub Sub : List Dispatch → List Dispatch → Type 0
Sub xs ys = (d : Dispatch) → In d xs → In d ys

pub served_of :
    (d : Dispatch) (xs : List Dispatch) → In d xs → contains d.task_id (served xs) ≡ true
unfolding served contains
served_of d [] m = elim m [ ]
served_of d (x ∷ xs) (inl same) = rw same (rw (==_refl x.task_id))
served_of d (x ∷ xs) (inr m) = ground (arith, served_of d xs m)

pub of_served :
    (p : Text) (xs : List Dispatch)
    → contains p (served xs) ≡ true
    → (d : Dispatch) × In d xs × (d.task_id ≡ p)
unfolding served contains
of_served p [] h = cc
of_served p (x ∷ xs) h = elim (Bool-cases (x.task_id == p)) [
  | inl e ↦ (x, inl refl, (text_eq.agrees_iff x.task_id p).0 e)
  | inr e ↦ let (d, m, s) = of_served p xs (ground arith) in (d, inr m, s)
]

pub served_mono :
    (p : Text) (xs ys : List Dispatch)
    → Sub xs ys
    → contains p (served xs) ≡ true
    → contains p (served ys) ≡ true
served_mono p xs ys sub h =
    let (d, m, e) = of_served p xs h in rw (sym e) (served_of d ys (sub d m))

-- With fewer records served, no violation goes away.
pub violates_mono :
    (orders : List Order) (xs ys : List Dispatch) (d : Dispatch)
    → Sub xs ys
    → violates orders ys d ≡ true
    → violates orders xs d ≡ true
unfolding violates
violates_mono orders xs ys d sub h =
    ground (arith, served_mono (predecessor_of orders d.task_id) xs ys sub)

pub keep_none :
    (q : Dispatch → Bool) (xs : List Dispatch) (d : Dispatch)
    → is_empty (keep q xs) ≡ true
    → In d xs
    → q d ≡ false
keep_none q xs d h m = elim (Bool-cases (q d)) [
  | inl e ↦ absurd (empty_In (keep q xs) h (In-keep_of q d xs m e))
  | inr e ↦ e
]
  where
    empty_In : (l : List Dispatch) → is_empty l ≡ true → In d l → ⊥
    empty_In [] e i = i
    empty_In (x ∷ l) e i = cc
