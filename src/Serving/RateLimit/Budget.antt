-- ===== src/Serving/RateLimit/Budget.antt =====
-- How many requests the limiter lets through: src/fl_op/serving/security/ratelimit.py.
use fl_op.Base.{
  ℕ, ◌+◌, ◌-◌, ◌<◌, min, ◌≡◌, refl, some, true, false, ◌&&◌, not, is_some, leb, List, [], ◌∷◌, All,
  arith, Text, text_eq, ◌==◌, ==_refl, Bool-cases, if◌then◌else◌, inl, inr, ◌∙◌,
}
use fl_op.Base.Dict.{get, get-put}
use fl_op.Serving.RateLimit.{Limiter, enabled, next_entry, verdict, check}

-- The requests of `key` that get through, when `requests` (a key and a clock reading each) arrive
-- in this order.
unfoldable pub admitted : Text → List (Text × ℕ) → Limiter → ℕ
admitted key [] l = 0
admitted key ((k, now) ∷ rest) l =
    (if k == key && not (is_some (check k now l).0) then 1 else 0)
    + admitted key rest (check k now l).1

unfoldable pub requests_of : Text → List (Text × ℕ) → ℕ
requests_of key [] = 0
requests_of key ((k, now) ∷ rest) = (if k == key then 1 else 0) + requests_of key rest

-- Only the entry of the request's key changes, and only its window counts for the verdict.
pub get-check_other :
    (key k : Text) (now : ℕ) (l : Limiter)
    → (k == key) ≡ false
    → get key (check k now l).1.windows ≡ get key l.windows
unfolding check
get-check_other key k now l h = ground (arith, get-put k key (next_entry l k now) l.windows)

pub settings-check :
    (k : Text) (now : ℕ) (l : Limiter)
    → ((check k now l).1.max_requests ≡ l.max_requests)
      × ((check k now l).1.window ≡ l.window)
      × ((check k now l).1.ticks ≡ l.ticks)
unfolding check
settings-check k now l = ground arith

pub enabled-check : (k : Text) (now : ℕ) (l : Limiter) → enabled (check k now l).1 ≡ enabled l
unfolding check
enabled-check k now l = ground arith

-- A request inside its key's window: it is counted, and let through up to the budget.
module _ (key : Text) (now start count : ℕ) (l : Limiter) (on : enabled l ≡ true)
    (entry : get key l.windows ≡ some (start, count)) (inside : now < start + l.window) where
  next_entry_inside : next_entry l key now ≡ (start, count + 1)
  unfolding next_entry enabled
  next_entry_inside = ground arith

  pub get-check_inside : get key (check key now l).1.windows ≡ some (start, count + 1)
  unfolding check
  get-check_inside =
      ground
        (arith, get-put key key (next_entry l key now) l.windows, ==_refl key, next_entry_inside)

  pub check_inside :
      is_some (check key now l).0 ≡ (if leb (count + 1) l.max_requests then false else true)
  unfolding check verdict
  check_inside = ground (arith, next_entry_inside)

-- Every request of the list arrives before the window that began at `start` has elapsed.
abbrev pub Within : ℕ → List (Text × ℕ) → Type 0
Within end requests = All (λ r. r.1 < end) requests

-- The induction, with the end of the window as a number of its own.
budget_until :
    (key : Text) (requests : List (Text × ℕ)) (start count end : ℕ) (l : Limiter)
    → enabled l ≡ true
    → get key l.windows ≡ some (start, count)
    → end ≡ start + l.window
    → Within end requests
    → admitted key requests l ≡ min (requests_of key requests) (l.max_requests - count)
unfolding admitted requests_of
budget_until key [] start count end l on entry e inside = omega arith
budget_until key ((k, now) ∷ rest) start count end l on entry e inside =
    elim (Bool-cases (k == key)) [
      | inl same ↦
          rw (same, (text_eq.agrees_iff k key).0 same)
            (ground (
              arith,
              check_inside key now start count l,
              settings-check key now l,
              budget_until key rest start (count + 1) end (check key now l).1
                  (enabled-check key now l ∙ on)
                  (get-check_inside key now start count l on entry (omega arith))
                  (omega (arith, settings-check key now l)) inside.1,
            ))
      | inr other ↦ rw other (
          ground (
            arith,
            settings-check k now l,
            budget_until key rest start count end (check k now l).1 (enabled-check k now l ∙ on)
                (get-check_other key k now l other ∙ entry) (omega (arith, settings-check k now l))
                inside.1,
          ))
    ]

-- The budget is exact. Over any interleaving of keys inside the current window of `key`, the number
-- of its requests that get through is the smaller of the number that arrive and what is left of
-- the budget.
pub budget_exact :
    (key : Text) (requests : List (Text × ℕ)) (start count : ℕ) (l : Limiter)
    → enabled l ≡ true
    → get key l.windows ≡ some (start, count)
    → Within (start + l.window) requests
    → admitted key requests l ≡ min (requests_of key requests) (l.max_requests - count)
budget_exact key requests start count l on entry inside =
    budget_until key requests start count (start + l.window) l on entry refl inside
