-- ===== src/Worker/Laws.antt =====
-- The event of a packet in the event loop of the worker: when it is set, and what a turn does then.
use schc_work.Common.{
  ◌≡◌, refl, ◌∙◌, inl, inr, Bool, true, false, not, some, Option, List, [], ◌∷◌, ◌++◌, ◌>>=◌,
  Ensures, Ensures-map, Ensures->>=, Ensures-if, Ensures-eq, result, Bool-cases,
}
use schc_work.Common.Int.{ℤ}
use schc_work.Platform.FdTable.Laws.{IsValid}
use schc_work.SchcAl.Lifecycle.{
  Started, no_context, already_up, no_device, gave_up_device, started, schc_al_init-Started,
}
use schc_work.Platform.FdTable.{
  Wakeup, paused, poll_error, idle, called, platform_enter_low_power_ll,
}
use schc_work.SchcAl.{
  InitAnswers, schc_al_init, Al, Options, Callback, schc_al_tun_received_handler,
  downlink_available_callback, Effect, schc_al_send_down, tun_received, schc_al_process,
  net_transmission_result,
}
use schc_work.SchcAl.Frame.{consume, schc_al_process-IsSameButBuffer}
use schc_work.SchcAl.ForwardUp.{net_data_received}
use schc_work.Worker.{
  Worker, SdkCall, processing_required, transmission_result, data_received, sdk_call, sdk_calls,
  fd_callback, fd_callbacks, Turn, run_mgt, run_al, after_wakeup, turn_around, main_loop,
}

-- A pending packet has asked for processing.
abbrev pub IsAwake : Worker → Type 0
IsAwake w = w.al.ip_packet_available ≡ true → w.al.processing_required ≡ true

-- Calls that change neither the events of a packet nor the table.
record SamePending (w w' : Worker) : Type 0 where
  pending : w'.al.ip_packet_available ≡ w.al.ip_packet_available
  required : w'.al.processing_required ≡ w.al.processing_required

abbrev SamePendingAs : Worker → List Effect × Worker → Type 0
SamePendingAs w out = SamePending w out.1

sdk_call-SamePending :
    (o : Options) (c : SdkCall) (w : Worker) → Ensures (SamePendingAs w) (sdk_call o c w)
unfolding sdk_call net_transmission_result
sdk_call-SamePending o processing_required w = result _ (record { pending = refl; required = refl })
sdk_call-SamePending o transmission_result w = result _ (record { pending = refl; required = refl })
sdk_call-SamePending o (data_received answers buffer size status) w =
    Ensures->>= (net_data_received o answers w.al buffer size status) _
      λ out e. result _ (record { pending = refl; required = refl })

sdk_calls-SamePending :
    (o : Options) (cs : List SdkCall) (w : Worker) → Ensures (SamePendingAs w) (sdk_calls o cs w)
unfolding sdk_calls
sdk_calls-SamePending o [] w = result _ (record { pending = refl; required = refl })
sdk_calls-SamePending o (c ∷ cs) w = Ensures->>= (sdk_call o c w) _ λ out e.
    Ensures->>= (sdk_calls o cs out.1) _ λ rest e'.
      let one = Ensures-eq (sdk_call-SamePending o c w) e in
      let more = Ensures-eq (sdk_calls-SamePending o cs out.1) e' in
      result _
        (record { pending = more.pending ∙ one.pending; required = more.required ∙ one.required })

SamePending-IsAwake : {w w' : Worker} → SamePending w w' → IsAwake w → IsAwake w'
SamePending-IsAwake k awake on = cc (awake (cc (k.pending)), k.required)

abbrev Awake : List Effect × Worker → Type 0
Awake out = IsAwake out.1

run_mgt-IsAwake :
    (o : Options) (turn : Turn) (w : Worker) → IsAwake w → Ensures Awake (run_mgt o turn w)
unfolding run_mgt
run_mgt-IsAwake o turn w awake =
    let asked = record w { mgt_process_request = false } in
    Ensures-if w.mgt_process_request (sdk_calls o turn.mgt_process asked) (some ([], w))
      (λ _.
        Ensures-map (SamePendingAs asked) _ (λ out k. SamePending-IsAwake k awake)
          (sdk_calls-SamePending o turn.mgt_process asked))
      (λ _. result _ awake)

consume-served :
    (b : Bool) (s : Al) → s.ip_packet_available ≡ b → (consume b s).ip_packet_available ≡ false
unfolding consume
consume-served true s e = refl
consume-served false s e = e

-- `run_al` leaves no event of a packet.
run_al-consumed :
    (o : Options) (turn : Turn) (w : Worker)
    → IsAwake w
    → Ensures
        (λ (out : List Effect × Worker). out.1.al.ip_packet_available ≡ false)
        (run_al o turn w)
unfolding run_al
run_al-consumed o turn w awake =
    Ensures-if (not w.al.processing_required) _ _
      (λ off. result _ (elim (Bool-cases w.al.ip_packet_available) [
        | inl on ↦ absurd (cc (awake on))
        | inr off ↦ off
      ]))
      (λ _. Ensures->>= (schc_al_process o turn.send w.al) _ λ out e.
        let after = record w { al = out.2 } in
        Ensures->>= (sdk_calls o turn.sending after) _ λ more e'. result _ (
          (Ensures-eq (sdk_calls-SamePending o turn.sending after) e').pending
          ∙ (schc_al_process-IsSameButBuffer o turn.send w.al e).pending
          ∙ consume-served w.al.ip_packet_available w.al refl))

fd_callback-IsAwake : (cb : Callback) (w : Worker) → IsAwake w → IsAwake (fd_callback cb w)
unfolding fd_callback tun_received
fd_callback-IsAwake schc_al_tun_received_handler w awake = λ _. refl
fd_callback-IsAwake downlink_available_callback w awake = awake

fd_callbacks-IsAwake : (cbs : List Callback) (w : Worker) → IsAwake w → IsAwake (fd_callbacks cbs w)
unfolding fd_callbacks
fd_callbacks-IsAwake [] w awake = awake
fd_callbacks-IsAwake (cb ∷ cbs) w awake =
    fd_callbacks-IsAwake cbs (fd_callback cb w) (fd_callback-IsAwake cb w awake)

after_wakeup-IsAwake : (r : Wakeup Callback) (w : Worker) → IsAwake w → IsAwake (after_wakeup r w)
unfolding after_wakeup
after_wakeup-IsAwake paused w awake = awake
after_wakeup-IsAwake poll_error w awake = awake
after_wakeup-IsAwake idle w awake = awake
after_wakeup-IsAwake (called cbs) w awake = fd_callbacks-IsAwake cbs w awake

run_al-IsAwake :
    (o : Options) (turn : Turn) (w : Worker) → IsAwake w → Ensures Awake (run_al o turn w)
run_al-IsAwake o turn w awake =
    Ensures-map _ _ (λ out off on. absurd (cc)) (run_al-consumed o turn w awake)

turn_around-IsAwake :
    (o : Options) (turn : Turn) (w : Worker) → IsAwake w → Ensures Awake (turn_around o turn w)
unfolding turn_around
turn_around-IsAwake o turn w awake = Ensures->>= (run_mgt o turn w) _ λ up e.
    Ensures->>= (run_al o turn up.1) _ λ out e'. result _ (
      after_wakeup-IsAwake (platform_enter_low_power_ll turn.poll out.1.al.watched_fds) out.1 (
        Ensures-eq (run_al-IsAwake o turn up.1 (Ensures-eq (run_mgt-IsAwake o turn w awake) e)) e'))

main_loop-IsAwake :
    (o : Options) (turns : List Turn) (w : Worker) → IsAwake w → Ensures Awake (main_loop o turns w)
unfolding main_loop
main_loop-IsAwake o [] w awake = result _ awake
main_loop-IsAwake o (turn ∷ turns) w awake = Ensures->>= (turn_around o turn w) _ λ out e.
    Ensures->>= (main_loop o turns out.1) _ λ more e'. result _ (
      Ensures-eq
        (main_loop-IsAwake o turns out.1 (Ensures-eq (turn_around-IsAwake o turn w awake) e)) e')

init-IsAwake :
    (o : Options) (answers : InitAnswers) (s : Al) (status : ℤ) (effects : List Effect) (w : Worker)
    → IsValid s.watched_fds
    → schc_al_init o answers s ≡ some (status, effects, w.al)
    → IsAwake w
init-IsAwake o answers s status effects w v start = awake (schc_al_init-Started o answers s v)
  where
    quiet : w.al.ip_packet_available ≡ false → IsAwake w
    quiet off on = absurd (cc)

    awake : Started o answers s (schc_al_init o answers s) → IsAwake w
    awake (no_context on failed e) = quiet (cc)
    awake (already_up context up e) = quiet (cc)
    awake (no_device context d f e) = quiet (cc)
    awake (gave_up_device context d f why e) = quiet (cc)
    awake (started slots context d f a b c e view w) = quiet (cc)

-- A step of the loop in which the packet is handled: the events are cleared, then
-- `schc_al_send_down` is called, and the SDK calls back while it sends.
abbrev pub handled : Options → Turn → Worker → Option (List Effect × Worker)
handled o turn w =
    schc_al_send_down o turn.send
      (record w.al { ip_packet_available = false; processing_required = false })
    >>= λ out. sdk_calls o turn.sending (record w { al = out.2 }) >>= λ more.
        some (out.1 ++ more.0, more.1)

-- However many turns the event loop has made after `schc_al_init`, whatever the SDK, the TUN device
-- and `poll` did in them: if the event of a packet is set after `mgt_process` of a further turn,
-- this turn clears the event and calls `schc_al_send_down`. The event is not passed over because
-- `processing_required` is not set. (While a transmission is under way, `schc_al_send_down` does not
-- read the packet.)
pub main_loop-served :
    (o : Options) (answers : InitAnswers) (s : Al) (status : ℤ) (effects : List Effect)
    (start w : Worker)
    → IsValid s.watched_fds
    → schc_al_init o answers s ≡ some (status, effects, start.al)
    → (turns : List Turn) {before calls : List Effect} → main_loop o turns start ≡ some (before, w)
    → (turn : Turn) {w' : Worker} → run_mgt o turn w ≡ some (calls, w')
    → w'.al.ip_packet_available ≡ true
    → run_al o turn w' ≡ handled o turn w'
unfolding run_al schc_al_process
main_loop-served o answers s status effects start w v up turns e turn e' pending =
    let awake : IsAwake start = init-IsAwake o answers s status effects start v up in
    let awake' : IsAwake w = Ensures-eq (main_loop-IsAwake o turns start awake) e in
    let required = Ensures-eq (run_mgt-IsAwake o turn w awake') e' pending in
    rw (required, pending) refl
