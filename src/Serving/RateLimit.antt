-- ===== src/Serving/RateLimit.antt =====
-- The fixed-window limiter: src/fl_op/serving/security/ratelimit.py.
-- Clock readings and the window are whole numbers of clock ticks, `ticks` of them to a second.
pub mod Budget
pub mod Retry
use fl_op.Base.{
  ℕ, ◌+◌, ◌-◌, ◌/◌, [], max, Option, none, some, Bool, ◌&&◌, or_else, ltb, leb, Text, text_eq,
  if◌then◌else◌,
}
use fl_op.Base.Dict.{Dict, get, put}

pub record Limiter : Type 0 where
  pub max_requests : ℕ
  pub window : ℕ
  pub ticks : ℕ
  -- key -> (window_start, count)
  pub windows : Dict Text (ℕ × ℕ)

-- A limiter as `__init__` leaves it.
unfoldable pub fresh : ℕ → ℕ → ℕ → Limiter
fresh max_requests window ticks = record {
  max_requests = max_requests;
  window = window;
  ticks = ticks;
  windows = [];
}

unfoldable pub enabled : Limiter → Bool
enabled l = ltb 0 l.max_requests && ltb 0 l.window

-- The window that a request at `now` counts in, and the requests counted there before it.
unfoldable pub current_window : ℕ → ℕ → ℕ × ℕ → ℕ × ℕ
current_window window now (start, count) =
    if leb window (now - start) then (now, 0) else (start, count)

-- `max(1, int(window_s - (now - window_start)))`, in whole seconds
unfoldable pub retry_seconds : Limiter → ℕ → ℕ → ℕ
retry_seconds l start now = max 1 ((l.window + start - now) / l.ticks)

-- The verdict on the request that brings the count to `count`: none, or `retry_after_s`.
unfoldable pub verdict : Limiter → ℕ → ℕ × ℕ → Option ℕ
verdict l now (start, count) =
    if ltb l.max_requests count then some (retry_seconds l start now) else none

abbrev counted : ℕ × ℕ → ℕ × ℕ
counted (start, count) = (start, count + 1)

-- The window entry of `key` after one more request.
unfoldable pub next_entry : Limiter → Text → ℕ → ℕ × ℕ
unfolding current_window
next_entry l key now = counted (current_window l.window now (or_else (get key l.windows) (now, 0)))

-- `check`: `some` is a raised RateLimitError.
unfoldable pub check : Text → ℕ → Limiter → Option ℕ × Limiter
unfolding enabled
check key now l =
    if enabled l
    then (
      verdict l now (next_entry l key now),
      record l { windows = put key (next_entry l key now) l.windows },
    )
    else (none, l)
