-- ===== src/Worker/SdkTimers/Tests.antt =====
-- A history of the SDK's timers.
use schc_work.Common.{
  ◌≡◌, refl, ℕ, zero, suc, ◌+◌, ◌<◌, none, true, false, some, List, [], ◌∷◌, All, arith,
}
use schc_work.Platform.Timer.{Itimerspec, Settime, null_duration}
use schc_work.Platform.Timer.History.{Arms}
use schc_work.Worker.SdkTimers.{SdkTimer, sdk_timers}
use schc_work.Worker.SdkTimers.Timeouts.{
  Event, start, stop, end_of, run, expected, IsFor, run-expected,
}

-- A kernel that arms with every time but 0.
arm : ℕ → ℕ → Settime
arm zero zero d = none
arm sec nsec d = some d

kernel : Settime
kernel d = arm d.tv_sec d.tv_nsec d

kernel-Arms : Arms kernel
unfolding kernel arm
kernel-Arms d h = armed d.tv_sec d.tv_nsec d h
  where
    armed : (sec nsec : ℕ) (d : Itimerspec) → 0 < sec + nsec → arm sec nsec d ≡ some d
    armed zero zero d h = absurd (omega arith)
    armed zero (suc n) d h = refl
    armed (suc s) n d h = refl

disarmed : kernel null_duration ≡ none
unfolding kernel arm
disarmed = refl

-- The second timer ends; the third is started twice, stopped, and has no end.
abbrev events : List Event
events =
    start 1 500 true ∷ start 2 70 true ∷ start 2 90 true ∷ end_of 1 ∷ stop 2 true ∷ end_of 2 ∷ []

events-IsFor : All IsFor events
events-IsFor = omega arith

told_once : expected events (λ i. false) ≡ 1 ∷ []
unfolding expected
told_once = refl

run-expected_example :
    (timers : List SdkTimer) × (run kernel events sdk_timers
      ≡ some (expected events (λ i. false), timers))
run-expected_example = run-expected kernel kernel-Arms disarmed events events-IsFor
