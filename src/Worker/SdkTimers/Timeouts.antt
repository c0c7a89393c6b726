-- ===== src/Worker/SdkTimers/Timeouts.antt =====
-- The timeouts that the SDK is told of, against those that it expects.
use mathlib.Core.Path.{subst}
use schc_work.Common.{
  ◌≡◌, refl, sym, ap, ◌∙◌, ℕ, zero, suc, ◌/◌, ◌%◌, ◌*◌, ◌<◌, Bool, true, false, not, ◌&&◌, ◌||◌,
  Option, none, some, List, [], ◌∷◌, ◌++◌, get_elem?, set, length, ◌==◌, if◌then◌else◌, ◌>>=◌,
  arith, All, get_elem?-set_self, get_elem?-set_ne, length-set, ℕ_discrete,
}
use schc_work.Platform.Timer.{
  TimerEvent, Itimerspec, Settime, null_duration, timer_init, timer_set_value, timer_start,
  timer_stop, sighandler, expire_of, expire,
}
use schc_work.Platform.Timer.History.{Arms}
use schc_work.Worker.SdkTimers.{
  sdk_timer_1_event, sdk_timer_2_event, sdk_timer_3_event, created, SdkTimer, mgt_timer_timeout,
  sdk_timers, cb_start_timer, cb_stop_timer, told, fires,
}

-- What happens to the timers: the Boolean tells whether `timer_settime` succeeds.
pub data Event : Type 0 where
  start : ℕ → ℕ → Bool → Event
  stop : ℕ → Bool → Event
  end_of : ℕ → Event

-- One event, with the timeouts that the SDK is told.
pub happen : Settime → Event → List SdkTimer → Option (List ℕ × List SdkTimer)
happen settime (start id duration ok) timers = do
  timers' ← cb_start_timer settime ok id duration timers
  some ([], timers')
happen settime (stop id ok) timers = do
  timers' ← cb_stop_timer settime ok id timers
  some ([], timers')
happen settime (end_of id) timers = fires id timers

pub run : Settime → List Event → List SdkTimer → Option (List ℕ × List SdkTimer)
run settime [] timers = some ([], timers)
run settime (e ∷ events) timers = do
  (out, timers') ← happen settime e timers
  (more, timers'') ← run settime events timers'
  some (out ++ more, timers'')

-- What the SDK may expect: a timer runs from its start to its stop or its end.
abbrev update : (ℕ → Bool) → ℕ → Bool → ℕ → Bool
update running id b i = if i == id then b else running i

abbrev next : Event → (ℕ → Bool) → ℕ → Bool
next (start id duration ok) running = update running id (running id || ok)
next (stop id ok) running = update running id (running id && not ok)
next (end_of id) running = update running id false

abbrev timeouts : Event → (ℕ → Bool) → List ℕ
timeouts (start id duration ok) running = []
timeouts (stop id ok) running = []
timeouts (end_of id) running = if running id then id ∷ [] else []

unfoldable pub expected : List Event → (ℕ → Bool) → List ℕ
expected [] running = []
expected (e ∷ events) running = timeouts e running ++ expected events (next e running)

-- An event for one of the three timers, with a time that is not 0.
abbrev pub IsFor : Event → Type 0
IsFor (start id duration ok) = (id < 3) × (0 < duration)
IsFor (stop id ok) = id < 3
IsFor (end_of id) = id < 3

abbrev armed_now : Option Itimerspec → Bool
armed_now none = false
armed_now (some time) = true

-- The flag and the kernel's timer tell alike whether the timer runs.
abbrev InState : Bool → TimerEvent (Unit {0}) → Type 0
InState r t = (t.started ≡ r) × (armed_now t.armed ≡ r)

module _ (settime : Settime) (arms : Arms settime) (disarms : settime null_duration ≡ none) where
  start-InState :
      (r ok : Bool) (duration : ℕ) (t : TimerEvent (Unit {0}))
      → 0 < duration
      → InState r t
      → InState (r || ok) (timer_start settime ok (timer_set_value duration t))
  unfolding timer_start timer_set_value
  start-InState true ok duration t d (a, b) = rw a (refl, b)
  start-InState false false duration t d (a, b) = rw a (refl, b)
  start-InState false true duration t d (a, b) = rw a (
    refl,
    ap armed_now (
        arms (record { tv_sec = duration / 1000; tv_nsec = duration % 1000 * 1000000 })
          (omega arith)),
  )

  stop-InState :
      (r ok : Bool) (t : TimerEvent (Unit {0}))
      → InState r t
      → InState (r && not ok) (timer_stop settime ok t)
  unfolding timer_stop
  stop-InState true true t h = (refl, ap armed_now disarms)
  stop-InState false true t h = (refl, ap armed_now disarms)
  stop-InState true false t h = h
  stop-InState false false t h = h

  expire-InState :
      (r : Bool) (t : TimerEvent (Unit {0})) (o : Option Itimerspec)
      → t.armed ≡ o
      → t.started ≡ r
      → armed_now o ≡ r
      → InState false (expire_of o t)
  unfolding expire_of sighandler
  expire-InState r t none e a b = (a ∙ sym b, ap armed_now e)
  expire-InState r t (some time) e a b = (refl, refl)

  told_lem :
      (r : Bool) (id : ℕ) (t : SdkTimer) (o : Option Itimerspec)
      → mgt_timer_timeout t.callback ≡ id
      → armed_now o ≡ r
      → told t o ≡ (if r then id ∷ [] else [])
  unfolding told
  told_lem true id t (some time) same b = ap (λ k. k ∷ []) same
  told_lem false id t none same b = refl
  told_lem true id t none same b = cc
  told_lem false id t (some time) same b = cc

  -- The timer `i` is the one that tells the number `i`, and runs as expected.
  Stands : (ℕ → Bool) → ℕ → SdkTimer → Type 0
  Stands running i t = (mgt_timer_timeout t.callback ≡ i) × InState (running i) t.timer

  Agrees : List SdkTimer → (ℕ → Bool) → Type 0
  Agrees timers running =
      (length timers ≡ 3)
      × ((i : ℕ) → i < 3 → (t : SdkTimer) × (get_elem? timers i ≡ some t) × Stands running i t)

  update-Agrees :
      (timers : List SdkTimer) (running : ℕ → Bool) (id : ℕ) (b : Bool) (t : SdkTimer)
      (timer : TimerEvent (Unit {0}))
      → id < 3
      → Agrees timers running
      → mgt_timer_timeout t.callback ≡ id
      → InState b timer
      → Agrees (set timers id (record t { timer = timer })) (update running id b)
  unfolding Agrees Stands
  update-Agrees timers running id b t timer inside (len, all) same state = (
    length-set timers id (record t { timer = timer }) ∙ len,
    λ i h. elim (ℕ_discrete i id) [
      | yes e ↦
          let at_id : update running id b i ≡ b = ground (arith, e) in
          let t' : SdkTimer = record t { timer = timer } in
          let stored : get_elem? (set timers id t') i ≡ some t' =
            ap (get_elem? (set timers id t')) e
            ∙ get_elem?-set_self timers id t' (omega (arith, len)) in
          (t', stored, (same ∙ sym e, subst (λ r. InState r timer) (sym at_id) state))
      | no ne ↦
          let away : update running id b i ≡ running i = ground (arith, ne) in
          let (t', e', (same', state')) = all i h in
          (
            t',
            get_elem?-set_ne timers id i (record t { timer = timer }) (λ e. ne (sym e)) ∙ e',
            (same', subst (λ r. InState r t'.timer) (sym away) state'),
          )
    ],
  )

  happen-Agrees :
      (e : Event) (timers : List SdkTimer) (running : ℕ → Bool)
      → IsFor e
      → Agrees timers running
      → (timers' : List SdkTimer) × (happen settime e timers ≡ some (timeouts e running, timers'))
        × Agrees timers' (next e running)
  unfolding happen cb_start_timer cb_stop_timer fires Agrees Stands
  happen-Agrees (start id duration ok) timers running (inside, pos) h =
      let (t, e, (same, state)) = h.1 id inside in
      let timer = timer_start settime ok (timer_set_value duration t.timer) in
      (
        set timers id (record t { timer = timer }),
        rw e refl,
        update-Agrees timers running id (running id || ok) t timer inside h same
            (start-InState (running id) ok duration t.timer pos state),
      )
  happen-Agrees (stop id ok) timers running inside h =
      let (t, e, (same, state)) = h.1 id inside in
      let timer = timer_stop settime ok t.timer in
      (
        set timers id (record t { timer = timer }),
        rw e refl,
        update-Agrees timers running id (running id && not ok) t timer inside h same
            (stop-InState (running id) ok t.timer state),
      )
  happen-Agrees (end_of id) timers running inside h =
      let (t, e, (same, state)) = h.1 id inside in
      let timer = expire t.timer in
      (
        set timers id (record t { timer = timer }),
        rw (e, told_lem (running id) id t t.timer.armed same state.1) refl,
        update-Agrees timers running id false t timer inside h same
            (expire-InState (running id) t.timer t.timer.armed refl state.0 state.1),
      )

  at_start : Agrees sdk_timers (λ i. false)
  unfolding Agrees Stands timer_init mgt_timer_timeout
  at_start = (refl, λ i h. first i h)
    where
      first :
          (i : ℕ)
          → i < 3
          → (t : SdkTimer) × (get_elem? sdk_timers i ≡ some t)
            × ((mgt_timer_timeout t.callback ≡ i) × InState false t.timer)
      first zero h = (created sdk_timer_1_event, refl, (refl, (refl, refl)))
      first (suc zero) h = (created sdk_timer_2_event, refl, (refl, (refl, refl)))
      first (suc (suc zero)) h = (created sdk_timer_3_event, refl, (refl, (refl, refl)))
      first (suc (suc (suc i))) h = absurd (omega arith)

  run_from :
      (events : List Event) (timers : List SdkTimer) (running : ℕ → Bool)
      → All IsFor events
      → Agrees timers running
      → (timers' : List SdkTimer) × (run settime events timers
          ≡ some (expected events running, timers'))
  unfolding run expected
  run_from [] timers running h agrees = (timers, refl)
  run_from (e ∷ events) timers running h agrees =
      let (timers', now, agrees') = happen-Agrees e timers running h.0 agrees in
      let (timers'', later) = run_from events timers' (next e running) h.1 agrees' in
      (timers'', rw (now, later) refl)

  -- In every history of the three timers from their creation, the SDK is told of the timeouts that
  -- it expects, with their numbers and in their order: one at the end of each timer that it started
  -- and that was not stopped since, and no other. A call whose `timer_settime` fails changes nothing,
  -- nor does the start of a timer that runs. The events are for the three timers, with times that
  -- are not 0; the kernel arms a timer with such a time and disarms it with 0.
  pub run-expected :
      (events : List Event)
      → All IsFor events
      → (timers : List SdkTimer) × (run settime events sdk_timers
          ≡ some (expected events (λ i. false), timers))
  run-expected events h = run_from events sdk_timers (λ i. false) h at_start
