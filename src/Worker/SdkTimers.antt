-- ===== src/Worker/SdkTimers.antt =====
-- The three timers that the SDK starts and stops by number: applications/schc_worker_linux/src/main.c
-- and, with the same functions, libs/schc_commons/src/schc_helper.c.
pub mod Timeouts
mod Tests
use schc_work.Common.{
  ℕ, Bool, true, false, Option, none, some, List, [], ◌∷◌, ◌++◌, get_elem?, set, ◌>>=◌,
}
use schc_work.Platform.Timer.{
  TimerEvent, Itimerspec, Settime, timer_init, timer_set_value, timer_start, timer_stop, expire,
}

-- The callbacks of the timers.
pub data SdkTimerEvent : Type 0 where
  sdk_timer_1_event sdk_timer_2_event sdk_timer_3_event : SdkTimerEvent

-- The number that a callback hands to `mgt_timer_timeout`.
pub mgt_timer_timeout : SdkTimerEvent → ℕ
mgt_timer_timeout sdk_timer_1_event = 0
mgt_timer_timeout sdk_timer_2_event = 1
mgt_timer_timeout sdk_timer_3_event = 2

-- A timer with its callback. The context is NULL in all of them.
pub record SdkTimer : Type 0 where
  pub callback : SdkTimerEvent
  pub timer : TimerEvent (Unit {0})

abbrev created : SdkTimerEvent → SdkTimer
created event = record { callback = event; timer = timer_init }

-- `sdk_timers` after the calls of `TimerInit`.
abbrev pub sdk_timers : List SdkTimer
sdk_timers = created sdk_timer_1_event ∷ created sdk_timer_2_event ∷ created sdk_timer_3_event ∷ []

-- The arguments are what `timer_settime` does, and whether it succeeds. `none` is an access outside
-- of the array.
pub cb_start_timer : Settime → Bool → ℕ → ℕ → List SdkTimer → Option (List SdkTimer)
cb_start_timer settime settime_ok id duration timers = do
  t ← get_elem? timers id
  let timer = timer_start settime settime_ok (timer_set_value duration t.timer)
  some (set timers id (record t { timer = timer }))

pub cb_stop_timer : Settime → Bool → ℕ → List SdkTimer → Option (List SdkTimer)
cb_stop_timer settime settime_ok id timers = do
  t ← get_elem? timers id
  some (set timers id (record t { timer = timer_stop settime settime_ok t.timer }))

-- The timeouts that the SDK is told when the kernel's timer is at its end.
pub told : SdkTimer → Option Itimerspec → List ℕ
told t none = []
told t (some time) = mgt_timer_timeout t.callback ∷ []

-- The kernel's timer behind the timer `id` comes to its end, if it is armed.
pub fires : ℕ → List SdkTimer → Option (List ℕ × List SdkTimer)
unfolding told
fires id timers = do
  t ← get_elem? timers id
  some (told t t.timer.armed, set timers id (record t { timer = expire t.timer }))
