-- ===== src/Platform/Timer/History.antt =====
-- A timer and the kernel's timer through a history of calls.
use schc_work.Common.{
  ℕ, ◌+◌, ◌<◌, ◌≡◌, refl, sym, ◌⊎◌, inl, inr, Bool, true, false, Option, none, some, List, [], ◌∷◌,
  All, arith, Bool-cases,
}
use mathlib.Core.Path.{subst}
use schc_work.Platform.Timer.{
  Itimerspec, TimerEvent, Settime, timer_init, timer_set_value, timer_start, timer_stop,
  timer_set_context, timer_reset, sighandler, expire_of, expire,
}

-- What can happen to a timer. The Boolean is whether `timer_settime` succeeds.
pub data Event (X : Type 0) : Type 0 where
  set_value : ℕ → Event X
  start stop reset : Bool → Event X
  set_context : X → Event X
  expires : Event X

unfoldable pub NonZero : {X : Type 0} → Event X → Type 0
NonZero (set_value value) = 0 < value
NonZero _ = Unit

-- The time is not 0, and the flag is only set while the kernel's timer runs.
pub record IsInStep {X : Type 0} (obj : TimerEvent X) : Type 0 where
  pub time : 0 < obj.duration.tv_sec + obj.duration.tv_nsec
  pub runs : (obj.started ≡ false) ⊎ ((d : Itimerspec) × (obj.armed ≡ some d))

-- What `timer_settime` promises: a time that is not 0 arms the timer with it.
abbrev pub Arms : Settime → Type 0
Arms settime = (d : Itimerspec) → 0 < d.tv_sec + d.tv_nsec → settime d ≡ some d

module _ {X : Type 0} where
  pub happen : Settime → Event X → TimerEvent X → TimerEvent X
  happen settime (set_value value) obj = timer_set_value value obj
  happen settime (start ok) obj = timer_start settime ok obj
  happen settime (stop ok) obj = timer_stop settime ok obj
  happen settime (reset ok) obj = timer_reset settime ok obj
  happen settime (set_context context) obj = timer_set_context context obj
  happen settime expires obj = expire obj

  pub run : Settime → List (Event X) → TimerEvent X → TimerEvent X
  run settime [] obj = obj
  run settime (e ∷ events) obj = run settime events (happen settime e obj)

  -- The ways of `TimerStart`.
  start_refused :
      (settime : Settime) (ok : Bool) (obj : TimerEvent X)
      → (obj.started ≡ true) ⊎ (ok ≡ false)
      → timer_start settime ok obj ≡ obj
  unfolding timer_start
  start_refused settime ok obj (inl on) = rw on refl
  start_refused settime ok obj (inr bad) = elim (Bool-cases obj.started) [
    | inl on ↦ rw on refl
    | inr off ↦ rw (bad, off) refl
  ]

  start_runs :
      (settime : Settime) (obj : TimerEvent X)
      → obj.started ≡ false
      → timer_start settime true obj ≡ record obj { started = true; armed = settime obj.duration }
  unfolding timer_start
  start_runs settime obj off = rw off refl

  start-IsInStep :
      (settime : Settime)
      → Arms settime
      → (ok : Bool) (obj : TimerEvent X) → IsInStep obj
      → IsInStep (timer_start settime ok obj)
  start-IsInStep settime arms false obj h =
      subst (λ o. IsInStep o) (sym (start_refused settime false obj (inr refl))) h
  start-IsInStep settime arms true obj h = elim (Bool-cases obj.started) [
    | inl on ↦ subst (λ o. IsInStep o) (sym (start_refused settime true obj (inl on))) h
    | inr off ↦
        let armed = arms obj.duration h.time in
        subst (λ o. IsInStep o) (sym (start_runs settime obj off))
          (record { time = h.time; runs = inr (obj.duration, armed) })
  ]

  stop-IsInStep :
      (settime : Settime) (ok : Bool) (obj : TimerEvent X)
      → IsInStep obj
      → IsInStep (timer_stop settime ok obj)
  unfolding timer_stop
  stop-IsInStep settime false obj h = h
  stop-IsInStep settime true obj h = record { time = h.time; runs = inl refl }

  expire_of-IsInStep :
      (armed : Option Itimerspec) (obj : TimerEvent X)
      → IsInStep obj
      → IsInStep (expire_of armed obj)
  unfolding expire_of sighandler
  expire_of-IsInStep none obj h = h
  expire_of-IsInStep (some d) obj h = record { time = h.time; runs = inl refl }

  happen-IsInStep :
      (settime : Settime)
      → Arms settime
      → (e : Event X) (obj : TimerEvent X) → NonZero e
      → IsInStep obj
      → IsInStep (happen settime e obj)
  unfolding happen NonZero timer_set_value timer_set_context timer_reset
  happen-IsInStep settime arms (set_value value) obj some_time h = record {
    time = omega (arith, some_time);
    runs = h.runs;
  }
  happen-IsInStep settime arms (start ok) obj nz h = start-IsInStep settime arms ok obj h
  happen-IsInStep settime arms (stop ok) obj nz h = stop-IsInStep settime ok obj h
  happen-IsInStep settime arms (reset ok) obj nz h =
      start-IsInStep settime arms ok (record obj { started = false })
        (record { time = h.time; runs = inl refl })
  happen-IsInStep settime arms (set_context context) obj nz h = record {
    time = h.time;
    runs = h.runs;
  }
  happen-IsInStep settime arms expires obj nz h = expire_of-IsInStep obj.armed obj h

  run_steps :
      (settime : Settime)
      → Arms settime
      → (events : List (Event X)) (obj : TimerEvent X) → All NonZero events
      → IsInStep obj
      → IsInStep (run settime events obj)
  unfolding run
  run_steps settime arms [] obj nz h = h
  run_steps settime arms (e ∷ events) obj (here, later) h =
      run_steps settime arms events (happen settime e obj) later
        (happen-IsInStep settime arms e obj here h)

  -- For a timer_settime that arms the kernel's timer with a time that is not 0, a timer that is
  -- created and given a time of more than 0 ms, and any history of starts,
  -- stops, resets, expiries, new contexts and new times of more than 0 ms, whichever calls of the
  -- kernel fail: the timer's time is not 0, and it is only marked as started while the kernel's timer
  -- runs.
  pub run-timer_init-IsInStep :
      (settime : Settime) (events : List (Event X)) (value : ℕ)
      → Arms settime
      → 0 < value
      → All NonZero events
      → IsInStep (run settime events (timer_set_value value timer_init))
  unfolding timer_set_value timer_init
  run-timer_init-IsInStep settime events value arms some_time nz =
      run_steps settime arms events (timer_set_value value timer_init) nz
        (record { time = omega (arith, some_time); runs = inl refl })
