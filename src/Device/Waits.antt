-- ===== src/Device/Waits.antt =====
-- src/labelfab/device/d30.py: `_await_completion`, how long a print is waited for. Times are in units of
-- 1/60900 s, in which the head takes 127 for a line. What the printer has confirmed after a time is an
-- argument.
pub mod Ends
use labelfab.Common.{
  ℕ, zero, suc, ◌+◌, ◌-◌, ◌*◌, ◌/◌, min, Bool, true, false, ◌&&◌, ◌||◌, not, ltb, if◌then◌else◌,
}

-- The settings of `D30Config` that the wait reads.
pub record Timing : Type 0 where
  pub post_print_margin : ℕ
  pub post_feed_margin : ℕ
  pub await_print_complete : Bool

abbrev pub default_timing : Timing
default_timing = record {
  post_print_margin = 213150;
  post_feed_margin = 152250;
  await_print_complete = true;
}

abbrev pub line_time : ℕ
line_time = 127

-- `_COMPLETION_POLL_S`
abbrev pub completion_poll : ℕ
completion_poll = 3045

abbrev pub print_duration : ℕ → ℕ → ℕ
print_duration height_px copies = height_px * copies * line_time

unfoldable pub budget : Timing → ℕ → ℕ → Bool → ℕ
budget t height_px copies feeding =
    print_duration height_px copies
    + t.post_print_margin
    + (if feeding then t.post_feed_margin else 0)

-- `while waited < budget`, with the rounds left: the time that has passed at the end. `completed`
-- says whether the completion frame has arrived after a time.
unfoldable pub poll : (ℕ → Bool) → ℕ → ℕ → ℕ → ℕ
poll completed limit zero waited = waited
poll completed limit (suc rounds) waited =
    let rest = poll completed limit rounds (waited + min completion_poll (limit - waited)) in
    if ltb waited limit then (if completed waited then waited else rest) else waited

-- A round waits for a poll, or is the last.
abbrev pub rounds_for : ℕ → ℕ
rounds_for limit = limit / completion_poll + 1

-- `_await_completion`: the time that is waited. A link that has told nothing is not polled.
unfoldable pub await_completion : Timing → (ℕ → Bool) → Bool → ℕ → ℕ → Bool → ℕ
unfolding budget poll
await_completion t completed silent height_px copies feeding =
    let limit = budget t height_px copies feeding in
    if not t.await_print_complete || silent
    then limit
    else poll completed limit (rounds_for limit) 0
