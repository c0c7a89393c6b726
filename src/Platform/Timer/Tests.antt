-- ===== src/Platform/Timer/Tests.antt =====
-- A history of a timer.
use schc_work.Common.{ℕ, refl, true, false, some, List, [], ◌∷◌, All, arith}
use schc_work.Platform.Timer.{timer_init, timer_set_value, Settime}
use schc_work.Platform.Timer.History.{
  Event, set_value, start, reset, expires, NonZero, IsInStep, run, run-timer_init-IsInStep,
}

-- Started, expired, given another time, and reset twice, the second time in vain.
abbrev events : List (Event ℕ)
events = start true ∷ expires ∷ set_value 1500 ∷ reset true ∷ reset false ∷ []

events-NonZero : All NonZero events
unfolding NonZero
events-NonZero = (tt, (tt, (omega arith, (tt, (tt, tt)))))

-- A kernel that arms with every time.
abbrev kernel : Settime
kernel d = some d

run-timer_init-IsInStep_example :
    IsInStep {X = ℕ} (run kernel events (timer_set_value 20 timer_init))
run-timer_init-IsInStep_example =
    run-timer_init-IsInStep kernel events 20 (λ d h. refl) (omega arith) events-NonZero
