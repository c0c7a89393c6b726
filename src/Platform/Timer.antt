-- ===== src/Platform/Timer.antt =====
-- platforms/linux/src/platform.c: the timers. A timer of the kernel is the time that it is armed
-- with, `none` where it is not. What `timer_settime` does is an argument, and whether it succeeds;
-- the calls of `TimerInit` succeed.
pub mod History
mod Tests
use schc_work.Common.{
  ℕ, ◌+◌, ◌*◌, ◌/◌, ◌%◌, Bool, true, false, not, Option, none, some, List, [], ◌∷◌, if◌then◌else◌,
}

-- `it_value` of `struct itimerspec`; the interval is 0.
pub record Itimerspec : Type 0 where
  pub tv_sec : ℕ
  pub tv_nsec : ℕ

abbrev pub null_duration : Itimerspec
null_duration = record { tv_sec = 0; tv_nsec = 0 }

-- `TimerEvent_t` with the kernel's timer behind `timerid`, and the contexts that the callback was
-- called with, the last one first. `X` is what a context points to.
pub record TimerEvent (X : Type 0) : Type 0 where
  pub duration : Itimerspec
  pub started : Bool
  pub context : Option X
  pub armed : Option Itimerspec
  pub called : List (Option X)

-- `timer_settime` of the kernel where it succeeds: what its timer is armed with.
abbrev pub Settime : Type 0
Settime = Itimerspec → Option Itimerspec

module _ {X : Type 0} where
  -- A timer that was created.
  unfoldable pub timer_init : TimerEvent X
  timer_init = record {
    duration = null_duration;
    started = false;
    context = none;
    armed = none;
    called = [];
  }

  unfoldable pub timer_set_value : ℕ → TimerEvent X → TimerEvent X
  timer_set_value value obj = record obj {
    duration = record { tv_sec = value / 1000; tv_nsec = value % 1000 * 1000000 };
  }

  unfoldable pub timer_start : Settime → Bool → TimerEvent X → TimerEvent X
  timer_start settime settime_ok obj =
      if obj.started
      then obj
      else if not settime_ok
      then obj
      else record obj { started = true; armed = settime obj.duration }

  unfoldable pub timer_stop : Settime → Bool → TimerEvent X → TimerEvent X
  timer_stop settime settime_ok obj =
      if not settime_ok then obj else record obj { started = false; armed = settime null_duration }

  pub timer_set_context : X → TimerEvent X → TimerEvent X
  timer_set_context context obj = record obj { context = some context }

  pub timer_reset : Settime → Bool → TimerEvent X → TimerEvent X
  timer_reset settime settime_ok obj =
      timer_start settime settime_ok (record obj { started = false })

  -- `_sighandler` for the timer's own signal.
  unfoldable pub sighandler : TimerEvent X → TimerEvent X
  sighandler obj = record obj { started = false; called = obj.context ∷ obj.called }

  -- The kernel's timer expires, if it is armed, and its signal is handled.
  unfoldable pub expire_of : Option Itimerspec → TimerEvent X → TimerEvent X
  expire_of none obj = obj
  expire_of (some time) obj = sighandler (record obj { armed = none })

  abbrev pub expire : TimerEvent X → TimerEvent X
  expire obj = expire_of obj.armed obj
