-- ===== src/Relations/Windows/Laws.antt =====
-- Which orders the window filter keeps: src/fl_op/solver/task_relations.py.
use fl_op.Base.{
  ap, map, keep, ℕ, ◌<◌, ◌≤◌, ◌≡◌, refl, Option, none, some, true, not, List, [], ◌∷◌, any,
  if◌then◌else◌, arith, inl, inr, ◌⊎◌, ◌↔◌, Bool-cases,
}
use fl_op.Base.Strip.{is_empty}
use fl_op.Base.Members.{In-map, In-keep_of, In-keep, In, any-In, In-any}
use fl_op.Relations.Order.{Order, window_infeasible}
use fl_op.Relations.Windows.{
  Parsers, TimeWindow, parse_time_windows, parse_deadline, usable, passes, apply_time_window_filter,
}

-- The window can still be met: it has not elapsed, and it opens by the deadline.
abbrev pub EndsAfter : ℕ → Option ℕ → Type 0
EndsAfter now none = Unit
EndsAfter now (some end) = now < end

abbrev pub OpensBy : Option ℕ → ℕ → Type 0
OpensBy none start = Unit
OpensBy (some deadline) start = start ≤ deadline

usable_iff :
    (now : ℕ) (deadline : Option ℕ) (w : TimeWindow)
    → (usable now deadline w ≡ true) ↔ (EndsAfter now w.1 × OpensBy deadline w.0)
unfolding usable
usable_iff now none (start, none) = ground arith
usable_iff now none (start, some end) = ground arith
usable_iff now (some d) (start, none) = ground arith
usable_iff now (some d) (start, some end) = ground arith

module _ (p : Parsers) where
  -- The order has no window that reads as one, or one that can still be met.
  abbrev pub IsWorkable : ℕ → Order → Type 0
  IsWorkable now o =
      (parse_time_windows p o.time_windows ≡ [])
      ⊎ ((w : TimeWindow) × In w (parse_time_windows p o.time_windows)
          × EndsAfter now w.1
          × OpensBy (parse_deadline p o.deadline) w.0)

  any-usable :
      (now : ℕ) (deadline : Option ℕ) (ws : List TimeWindow)
      → ((if is_empty ws then true else any (usable now deadline) ws) ≡ true)
        ↔ ((ws ≡ []) ⊎ ((w : TimeWindow) × In w ws × EndsAfter now w.1 × OpensBy deadline w.0))
  any-usable now deadline [] = (λ _. inl refl, λ _. refl)
  any-usable now deadline (w ∷ ws) = (
    λ h.
        let (v, m, u) = any-In (usable now deadline) (w ∷ ws) h in
        inr (v, m, ((usable_iff now deadline v).0 u).0, ((usable_iff now deadline v).0 u).1),
    λ h. elim h [
      | inl e ↦ absurd (cc)
      | inr (v, m, a, b) ↦
          In-any (usable now deadline) v (w ∷ ws) m ((usable_iff now deadline v).1 (a, b))
    ],
  )

  passes_iff : (now : ℕ) (o : Order) → (passes p now o ≡ true) ↔ IsWorkable now o
  unfolding passes
  passes_iff now o =
      any-usable now (parse_deadline p o.deadline) (parse_time_windows p o.time_windows)

  fails : (now : ℕ) (o : Order) → (¬ IsWorkable now o) → not (passes p now o) ≡ true
  fails now o w = elim (Bool-cases (passes p now o)) [
    | inl e ↦ absurd (w ((passes_iff now o).0 e))
    | inr e ↦ rw e
  ]

  filter_keeps :
      (now : ℕ) (orders : List Order)
      → ((apply_time_window_filter p now orders).0 ≡ keep (passes p now) orders)
        × ((apply_time_window_filter p now orders).1
            ≡ map (λ o. window_infeasible o.task_id) (keep (λ o. not (passes p now o)) orders))
  unfolding apply_time_window_filter
  filter_keeps now [] = (refl, refl)
  filter_keeps now (o ∷ orders) = elim (Bool-cases (passes p now o)) [
    | inl e ↦ let (k, r) = filter_keeps now orders in (rw e (ap (λ l. o ∷ l) k), rw e r)
    | inr e ↦
        let (k, r) = filter_keeps now orders in
        (rw e k, rw e (ap (λ l. window_infeasible o.task_id ∷ l) r))
  ]

  -- The filter keeps exactly the orders that are workable, and reports every other one.
  pub apply_time_window_filter_splits :
      (now : ℕ) (orders : List Order) (o : Order)
      → In o orders
      → (In o (apply_time_window_filter p now orders).0 ↔ IsWorkable now o)
        × ((¬ IsWorkable now o)
            → In (window_infeasible o.task_id) (apply_time_window_filter p now orders).1)
  apply_time_window_filter_splits now orders o m =
      let (k, r) = filter_keeps now orders in
      (
        (
          λ i. (passes_iff now o).0 (In-keep (passes p now) o orders (rw k at i)).1,
          λ w. rw k (In-keep_of (passes p now) o orders m ((passes_iff now o).1 w)),
        ),
        λ w. rw r (
            In-map (λ (x : Order). window_infeasible x.task_id) o
              (keep (λ x. not (passes p now x)) orders)
              (In-keep_of (λ x. not (passes p now x)) o orders m (fails now o w))),
      )

  EndsAfter-earlier :
      (now later : ℕ) (e : Option ℕ) → now ≤ later → EndsAfter later e → EndsAfter now e
  EndsAfter-earlier now later none h a = tt
  EndsAfter-earlier now later (some e) h a = omega arith

  -- Time only takes orders away: what is excluded now is excluded at every later time.
  pub passes_earlier :
      (now later : ℕ) (o : Order) → now ≤ later → IsWorkable later o → IsWorkable now o
  passes_earlier now later o h (inl e) = inl e
  passes_earlier now later o h (inr (w, m, a, b)) =
      inr (w, m, EndsAfter-earlier now later w.1 h a, b)
