-- ===== src/Serving/RateLimit/Retry.antt =====
-- Windows end, and the `Retry-After` hint: src/fl_op/serving/security/ratelimit.py.
use native.Mathlib.Nat.{div-add-mod'}
use fl_op.Base.{
  ℕ, ◌+◌, ◌*◌, ◌/◌, ◌%◌, ◌-◌, ◌≤◌, ◌<◌, max, ◌≡◌, ◌≢◌, none, some, true, arith, Text, text_eq,
  ==_refl, ◌∙◌, ap, sym, is_some,
}
use fl_op.Base.Dict.{get, get-put}
use fl_op.Serving.RateLimit.{Limiter, enabled, next_entry, verdict, check, retry_seconds}
use fl_op.Serving.RateLimit.Budget.{settings-check, enabled-check}

-- A refusal at `now` leaves a window that `now` lies in, with the budget spent.
refused_entry :
    (key : Text) (now retry : ℕ) (l : Limiter)
    → (check key now l).0 ≡ some retry
    → (start : ℕ) × (count : ℕ) × (get key (check key now l).1.windows ≡ some (start, count))
      × (now < start + l.window)
      × (l.max_requests < count)
      × (retry ≡ retry_seconds l start now)
unfolding check verdict next_entry enabled
refused_entry key now retry l h = (
  (next_entry l key now).0,
  (next_entry l key now).1,
  ground (arith, get-put key key (next_entry l key now) l.windows, ==_refl key),
  ground arith,
  ground arith,
  ground arith,
)

-- Once the window of the key's entry is over, a request gets through and opens a new window.
pub check_elapsed :
    (key : Text) (now start count : ℕ) (l : Limiter)
    → enabled l ≡ true
    → get key l.windows ≡ some (start, count)
    → start + l.window ≤ now
    → ((check key now l).0 ≡ none) × (get key (check key now l).1.windows ≡ some (now, 1))
unfolding check verdict next_entry enabled
check_elapsed key now start count l on entry over =
    (ground arith, ground (arith, get-put key key (next_entry l key now) l.windows, ==_refl key))

-- Before that, with the budget spent, it is refused.
pub check_spent :
    (key : Text) (now start count : ℕ) (l : Limiter)
    → enabled l ≡ true
    → get key l.windows ≡ some (start, count)
    → now < start + l.window
    → l.max_requests ≤ count
    → is_some (check key now l).0 ≡ true
unfolding check verdict next_entry enabled
check_spent key now start count l on entry inside spent = ground arith

enabled_of_refused :
    (key : Text) (now retry : ℕ) (l : Limiter) → (check key now l).0 ≡ some retry → enabled l ≡ true
unfolding check
enabled_of_refused key now retry l h = ground arith

rounded_up : (r t : ℕ) → 0 < t → r < (max 1 (r / t) + 1) * t
rounded_up r t pos = grind arith

-- `retry_seconds` rounds what is left of the window down, so one second more is always enough.
remaining-lt-retry :
    (l : Limiter) (start now : ℕ)
    → 0 < l.ticks
    → l.window + start - now < (retry_seconds l start now + 1) * l.ticks
unfolding retry_seconds
remaining-lt-retry l start now pos = rounded_up (l.window + start - now) l.ticks pos

-- A refused client that waits for the advertised seconds and one second more gets through, if
-- nothing else came for its key.
retry_late :
    (key : Text) (now retry later : ℕ) (l : Limiter)
    → 0 < l.ticks
    → (check key now l).0 ≡ some retry
    → now + (retry + 1) * l.ticks ≤ later
    → (check key later (check key now l).1).0 ≡ none
retry_late key now retry later l pos refused waited =
    let (start, count, entry, inside, spent, hint) = refused_entry key now retry l refused in
    (check_elapsed key later start count (check key now l).1
      (enabled-check key now l ∙ enabled_of_refused key now retry l refused) entry
      (omega (
        arith,
        settings-check key now l,
        ap (λ (r : ℕ). (r + 1) * l.ticks) hint,
        remaining-lt-retry l start now pos,
      ))).0

div-pos : (r t : ℕ) → 0 < t → t ≤ r → 0 < r / t
div-pos r t pos h = grind arith

rounded_down : (r t : ℕ) → 0 < t → t ≤ r → r % t ≢ 0 → max 1 (r / t) * t < r
rounded_down r t pos h rest =
    let e : max 1 (r / t) ≡ r / t = omega (arith, div-pos r t pos h) in
    rw e (omega (arith, div-add-mod' r t))

-- A client that waits for exactly the advertised seconds is refused again, whenever what was left
-- of its window was more than a second and no whole number of seconds.
pub retry_early :
    (key : Text) (now retry start count : ℕ) (l : Limiter)
    → 0 < l.ticks
    → (check key now l).0 ≡ some retry
    → get key (check key now l).1.windows ≡ some (start, count)
    → l.ticks ≤ l.window + start - now
    → (l.window + start - now) % l.ticks ≢ 0
    → is_some (check key (now + retry * l.ticks) (check key now l).1).0 ≡ true
retry_early key now retry start count l pos refused entry second fraction =
    let (start', count', entry', inside, spent, hint) = refused_entry key now retry l refused in
    let same : (start ≡ start') × (count ≡ count') = (cc (entry, entry'), cc (entry, entry')) in
    check_spent key (now + retry * l.ticks) start count (check key now l).1
      (enabled-check key now l ∙ enabled_of_refused key now retry l refused) entry
      (omega (
        arith,
        settings-check key now l,
        same.0,
        ap (λ (r : ℕ). r * l.ticks) (hint ∙ ap (λ s. retry_seconds l s now) (sym same.0)),
        early l start now pos second fraction,
      ))
      (omega (arith, settings-check key now l, same.1))
  where
    early :
        (l : Limiter) (start now : ℕ)
        → 0 < l.ticks
        → l.ticks ≤ l.window + start - now
        → (l.window + start - now) % l.ticks ≢ 0
        → retry_seconds l start now * l.ticks < l.window + start - now
    early l start now pos second fraction =
        unfold retry_seconds in rounded_down (l.window + start - now) l.ticks pos second fraction
