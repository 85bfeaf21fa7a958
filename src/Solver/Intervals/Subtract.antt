-- ===== src/Solver/Intervals/Subtract.antt =====
-- Subtracting intervals subtracts sets: src/fl_op/solver/restrictions.py.
use fl_op.Base.{
  any-append, Bool-cases, inl, inr, sym, ℕ, ◌+◌, ◌-◌, ◌≡◌, refl, ap, ◌∙◌, Bool, true, false, ◌&&◌,
  ◌||◌, not, List, [], ◌∷◌, arith, if◌then◌else◌, any, ltb, leb,
}
use fl_op.Solver.Intervals.{Interval, cut, cut_all, merge_intervals, subtract_intervals}
use fl_op.Solver.Intervals.Merge.{covers, any-merge_intervals}

-- Clear of the blocked interval, no instant lies in both.
clear :
    (x s e a z : ℕ)
    → (ltb e a || ltb z s) ≡ true
    → covers x (a, z) ≡ (covers x (a, z) && not (covers x (s, e)))
clear x s e a z apart = ground arith

left_part :
    (x a s : ℕ) → any (covers x) (if ltb a s then (a, s - 1) ∷ [] else []) ≡ (leb a x && ltb x s)
left_part x a s = ground arith

right_part :
    (x e z : ℕ) → any (covers x) (if ltb e z then (e + 1, z) ∷ [] else []) ≡ (ltb e x && leb x z)
right_part x e z = ground arith

pieces :
    (x s e a z : ℕ)
    → (ltb e a || ltb z s) ≡ false
    → ((leb a x && ltb x s) || (ltb e x && leb x z)) ≡ (covers x (a, z) && not (covers x (s, e)))
pieces x s e a z meet = ground arith

distribute : (p q r b : Bool) → (p && not b) ≡ q → ((p || r) && not b) ≡ (q || (r && not b))
distribute p q r b h = ground (arith, h)

any-cut :
    (x : ℕ) (b : Interval) (l : List Interval)
    → any (covers x) (cut b l) ≡ (any (covers x) l && not (covers x b))
unfolding cut
any-cut x b [] = refl
any-cut x (s, e) ((a, z) ∷ l) =
    let rest = any (covers x) l in
    elim (Bool-cases (ltb e a || ltb z s)) [
      | inl apart ↦ rw apart (
          ap (λ r. covers x (a, z) || r) (any-cut x (s, e) l)
          ∙ sym (distribute _ _ rest (covers x (s, e)) (sym (clear x s e a z apart))))
      | inr meet ↦ rw meet (
          rw (any-append, any-append, left_part, right_part, any-cut x (s, e) l)
            (ap (λ r. r || (rest && not (covers x (s, e)))) (pieces x s e a z meet)
              ∙ sym (distribute _ _ rest (covers x (s, e)) refl)))
    ]

any-cut_all :
    (x : ℕ) (blocked l : List Interval)
    → any (covers x) (cut_all blocked l) ≡ (any (covers x) l && not (any (covers x) blocked))
unfolding cut_all
any-cut_all x [] l = ground arith
any-cut_all x (b ∷ blocked) l =
    any-cut_all x blocked (cut b l)
    ∙ ap (λ r. r && not (any (covers x) blocked)) (any-cut x b l)
    ∙ both (any (covers x) l) (covers x b) (any (covers x) blocked)
  where
    both : (p q r : Bool) → ((p && not q) && not r) ≡ (p && not (q || r))
    both p q r = ground arith

-- An instant lies in the difference exactly if it lies in an interval of the first list and in none
-- of the second.
pub any-subtract_intervals :
    (x : ℕ) (allowed blocked : List Interval)
    → any (covers x) (subtract_intervals allowed blocked)
      ≡ (any (covers x) allowed && not (any (covers x) blocked))
unfolding subtract_intervals
any-subtract_intervals x allowed blocked = ground (
  arith,
  any-cut_all x (merge_intervals blocked) (merge_intervals allowed),
  any-merge_intervals x allowed,
  any-merge_intervals x blocked,
)
