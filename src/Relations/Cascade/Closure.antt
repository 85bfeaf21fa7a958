-- ===== src/Relations/Cascade/Closure.antt =====
-- What the cascade excludes: src/fl_op/solver/task_relations.py.
use fl_op.Base.{
  ◌↔◌, sym, ap, length-append, ℕ, zero, suc, ◌+◌, ◌<◌, ◌≡◌, refl, Option, none, some, true, false,
  List, [], ◌∷◌, ◌++◌, length, Text, text_eq, contains, contains-append, arith, Bool-cases, inl,
  inr, ◌⊎◌,
}
use fl_op.Base.Strip.{is_empty}
use fl_op.Base.Members.{All_at, In, In-append_left, In-append_right}
use fl_op.Relations.Order.{Order, Infeasible, excluded_before_solve}
use fl_op.Relations.Cascade.{is_cut, run_round, add_cut, cascade, apply_dependency_filter}
use fl_op.Relations.Cascade.Rounds.{
  length-run_round, excluded_grows, remains_or_IsCut, quiet_round, In-remaining, length_pos,
}

-- The tasks that are out, at once or through a chain of predecessors.
pub data Out (orders : List Order) (excluded : List Text) : Text → Type 0 where
  seed : {t : Text} → contains t excluded ≡ true → Out orders excluded t
  chain :
      {t : Text} (o : Order)
      → In o orders
      → o.task_id ≡ t
      → is_empty o.predecessor ≡ false
      → Out orders excluded o.predecessor
      → Out orders excluded t

module _ (all : List Order) (seeds : List Text) where
  -- Every id of the list is out.
  abbrev AllOut : List Text → Type 0
  AllOut excluded = (t : Text) → contains t excluded ≡ true → Out all seeds t

  AllOut-snoc :
      (excluded : List Text) (o : Order)
      → AllOut excluded
      → In o all
      → is_cut excluded o ≡ true
      → AllOut (excluded ++ o.task_id ∷ [])
  unfolding contains
  AllOut-snoc excluded o h m cut t c = elim (Bool-cases (contains t excluded)) [
    | inl old ↦ h t old
    | inr new ↦
        chain o m
          (ground
            (arith, contains-append t excluded (o.task_id ∷ []), text_eq.agrees_iff o.task_id t))
          (ground arith) (h o.predecessor (ground arith))
  ]

  run_round-AllOut :
      (excluded : List Text) (orders : List Order)
      → ((p : Order) → In p orders → In p all)
      → AllOut excluded
      → AllOut (run_round excluded orders).excluded
  unfolding run_round
  run_round-AllOut excluded [] sub h = h
  run_round-AllOut excluded (o ∷ orders) sub h = elim (Bool-cases (is_cut excluded o)) [
    | inl cut ↦ rw cut (
        run_round-AllOut (excluded ++ o.task_id ∷ []) orders (λ p m. sub p (inr m))
          (AllOut-snoc excluded o h (sub o (inl refl)) cut))
    | inr free ↦ rw free (run_round-AllOut excluded orders (λ p m. sub p (inr m)) h)
  ]

  -- How the loop ends: `final` are the ids excluded in the end.
  record Settled (start : List Text) (orders kept : List Order) (infeasible : List Infeasible)
      : Type 0 where
    final : List Text
    grown : (t : Text) → contains t start ≡ true → contains t final ≡ true
    out : AllOut final
    free : (p : Order) → In p kept → (is_cut final p ≡ false) × In p orders
    sides :
        (p : Order)
        → In p orders
        → In p kept
          ⊎ (In (excluded_before_solve p) infeasible
              × (is_cut final p ≡ true)
              × (contains p.task_id final ≡ true))
    balanced : length kept + length infeasible ≡ length orders

  abbrev SettledResult : List Text → List Order → Option (List Order × List Infeasible) → Type 0
  SettledResult start orders none = ⊥
  SettledResult start orders (some (kept, infeasible)) = Settled start orders kept infeasible

  settle_quiet :
      (start : List Text) (orders : List Order)
      → is_empty (run_round start orders).cut ≡ true
      → AllOut start
      → Settled start orders (run_round start orders).remaining []
  settle_quiet start orders quiet h =
      let (same, rest, none_cut) = quiet_round start orders quiet in
      record {
        final = start;
        grown = λ t c. c;
        out = h;
        free = λ p m.
            let i = rw rest at m in (All_at (λ o. is_cut start o ≡ false) orders p none_cut i, i);
        sides = λ p m. inl (rw rest m);
        balanced = omega (arith, ap (length {A = Order}) rest);
      }

  settle_round :
      (start : List Text) (orders kept : List Order) (infeasible : List Infeasible)
      → AllOut (run_round start orders).excluded
      → Settled (run_round start orders).excluded (run_round start orders).remaining kept infeasible
      → Settled start orders kept ((run_round start orders).cut ++ infeasible)
  settle_round start orders kept infeasible h s = record {
    final = s.final;
    grown = λ t c. s.grown t (excluded_grows t start orders c);
    out = s.out;
    free = λ p m. let (f, i) = s.free p m in (f, In-remaining p start orders i);
    sides = λ p m. elim (remains_or_IsCut p start orders m) [
      | inl stays ↦ elim (s.sides p stays) [
        | inl k ↦ inl k
        | inr (r, c, l) ↦ inr (In-append_right _ (run_round start orders).cut infeasible r, c, l)
      ]
      | inr (r, d, u, l) ↦ inr (
        In-append_left _ (run_round start orders).cut infeasible r,
        ground (arith, s.grown p.predecessor u),
        s.grown p.task_id l,
      )
    ];
    balanced = omega (
      arith,
      s.balanced,
      length-run_round start orders,
      length-append (run_round start orders).cut infeasible,
    );
  }

  settle_add :
      (start : List Text) (orders : List Order) (r : Option (List Order × List Infeasible))
      → AllOut (run_round start orders).excluded
      → SettledResult (run_round start orders).excluded (run_round start orders).remaining r
      → SettledResult start orders (add_cut (run_round start orders).cut r)
  settle_add start orders none h s = s
  settle_add start orders (some (kept, infeasible)) h s =
      settle_round start orders kept infeasible h s

  shrinks :
      (start : List Text) (orders : List Order) (rounds : ℕ)
      → is_empty (run_round start orders).cut ≡ false
      → length orders < suc rounds
      → length (run_round start orders).remaining < rounds
  shrinks start orders rounds busy h =
      omega (arith, length-run_round start orders, length_pos (run_round start orders).cut busy)

  cascade-Settled :
      (rounds : ℕ) (start : List Text) (orders : List Order)
      → length orders < rounds
      → ((p : Order) → In p orders → In p all)
      → AllOut start
      → SettledResult start orders (cascade rounds start orders)
  unfolding cascade
  cascade-Settled zero start orders h sub out = absurd (omega arith)
  cascade-Settled (suc rounds) start orders h sub out =
      elim (Bool-cases (is_empty (run_round start orders).cut)) [
        | inl quiet ↦ rw quiet (settle_quiet start orders quiet out)
        | inr busy ↦ rw busy (
            settle_add start orders
              (cascade rounds (run_round start orders).excluded (run_round start orders).remaining)
              (run_round-AllOut start orders sub out)
              (cascade-Settled rounds (run_round start orders).excluded
                (run_round start orders).remaining (shrinks start orders rounds busy h)
                (λ p m. sub p (In-remaining p start orders m))
                (run_round-AllOut start orders sub out)))
      ]

  -- An order that was settled out: it has a predecessor, and that is out.
  abbrev pub Depends : Order → Type 0
  Depends o = (is_empty o.predecessor ≡ false) × Out all seeds o.predecessor

  module _ (kept : List Order) (infeasible : List Infeasible)
      (s : Settled seeds all kept infeasible) where
    -- What is out is excluded in the end.
    Out-final : {t : Text} → Out all seeds t → contains t s.final ≡ true
    Out-final (seed h) = s.grown _ h
    Out-final (chain o m same dep h) = elim (s.sides o m) [
      | inl k ↦ absurd (clash o k dep (Out-final h))
      | inr (_, _, l) ↦ rw (sym same) l
    ]
      where
        clash :
            (o : Order)
            → In o kept
            → is_empty o.predecessor ≡ false
            → contains o.predecessor s.final ≡ true
            → ⊥
        clash o k dep c = ground (arith, (s.free o k).0)

    kept_iff : (o : Order) → In o kept ↔ (In o all × (¬ Depends o))
    kept_iff o = (
      λ k. ((s.free o k).1, λ d. ground (arith, (s.free o k).0, Out-final d.1)),
      λ h. elim (s.sides o h.0) [
        | inl k ↦ k
        | inr (_, cut, _) ↦ absurd (h.1 (ground arith, s.out o.predecessor (ground arith)))
      ],
    )

    reported : (o : Order) → In o all → Depends o → In (excluded_before_solve o) infeasible
    reported o m d = elim (s.sides o m) [
      | inl k ↦ absurd (ground (arith, (s.free o k).0, Out-final d.1))
      | inr (r, _, _) ↦ r
    ]

-- What the filter promises of its result `r`.
abbrev pub IsClosure : List Order → List Text → Option (List Order × List Infeasible) → Type 0
IsClosure orders excluded r =
    (kept : List Order) × (infeasible : List Infeasible) × (r ≡ some (kept, infeasible))
    × ((o : Order) → In o kept ↔ (In o orders × (¬ Depends orders excluded o)))
    × ((o : Order)
        → In o orders
        → Depends orders excluded o
        → In (excluded_before_solve o) infeasible)
    × (length kept + length infeasible ≡ length orders)

settled-IsClosure :
    (orders : List Order) (excluded : List Text) (r : Option (List Order × List Infeasible))
    → SettledResult orders excluded excluded orders r
    → IsClosure orders excluded r
settled-IsClosure orders excluded none s = absurd s
settled-IsClosure orders excluded (some (kept, infeasible)) s = (
  kept,
  infeasible,
  refl,
  kept_iff orders excluded kept infeasible s,
  reported orders excluded kept infeasible s,
  s.balanced,
)

-- The filter ends. It keeps exactly the orders whose predecessor is not excluded, at once or through
-- a chain of predecessors; it reports each of the others; and every order is kept or reported once.
pub apply_dependency_filter-IsClosure :
    (orders : List Order) (excluded : List Text)
    → IsClosure orders excluded (apply_dependency_filter orders excluded)
unfolding apply_dependency_filter
apply_dependency_filter-IsClosure orders excluded =
    settled-IsClosure orders excluded (cascade (suc (length orders)) excluded orders) (
      cascade-Settled orders excluded (suc (length orders)) excluded orders (omega arith) (λ p m. m)
        (λ t c. seed c))
