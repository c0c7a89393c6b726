-- ===== src/Worker/Device.antt =====
-- The event loop leaves the TUN device and the table of watched descriptors alone.
use schc_work.Common.{
  ◌≡◌, refl, ◌∙◌, Bool, true, false, not, List, [], ◌∷◌, Ensures, Ensures->>=, Ensures-if,
  Ensures-eq, Ensures-map, result, some,
}
use schc_work.Platform.FdTable.{
  Wakeup, paused, poll_error, idle, called, platform_enter_low_power_ll,
}
use schc_work.SchcAl.{
  Al, Options, Callback, schc_al_tun_received_handler, downlink_available_callback, Effect,
  tun_received, schc_al_process, net_transmission_result,
}
use schc_work.SchcAl.Frame.{consume, schc_al_process-IsSameButBuffer}
use schc_work.SchcAl.ForwardUp.{net_data_received}
use schc_work.Worker.{
  Worker, SdkCall, processing_required, transmission_result, data_received, sdk_call, sdk_calls,
  fd_callback, fd_callbacks, Turn, run_mgt, run_al, after_wakeup, turn_around, main_loop,
}

pub record SameDevice (w w' : Worker) : Type 0 where
  pub device : w'.al.tun_fd ≡ w.al.tun_fd
  pub table : w'.al.watched_fds ≡ w.al.watched_fds

pub same : (w : Worker) → SameDevice w w
same w = record { device = refl; table = refl }

pub SameDevice-trans : {u v w : Worker} → SameDevice u v → SameDevice v w → SameDevice u w
SameDevice-trans p q = record { device = q.device ∙ p.device; table = q.table ∙ p.table }

-- A run that starts at `w` leaves the device of `w` alone.
abbrev pub SameDeviceAs : Worker → List Effect × Worker → Type 0
SameDeviceAs w out = SameDevice w out.1

sdk_call-SameDevice :
    (o : Options) (c : SdkCall) (w : Worker) → Ensures (SameDeviceAs w) (sdk_call o c w)
unfolding sdk_call net_transmission_result
sdk_call-SameDevice o processing_required w = result _ (record { device = refl; table = refl })
sdk_call-SameDevice o transmission_result w = result _ (record { device = refl; table = refl })
sdk_call-SameDevice o (data_received answers buffer size status) w =
    Ensures->>= (net_data_received o answers w.al buffer size status) _ λ out e. result _ (same w)

sdk_calls-SameDevice :
    (o : Options) (cs : List SdkCall) (w : Worker) → Ensures (SameDeviceAs w) (sdk_calls o cs w)
unfolding sdk_calls
sdk_calls-SameDevice o [] w = result _ (same w)
sdk_calls-SameDevice o (c ∷ cs) w = Ensures->>= (sdk_call o c w) _ λ out e.
    Ensures->>= (sdk_calls o cs out.1) _ λ more e'. result _ (
      SameDevice-trans (Ensures-eq (sdk_call-SameDevice o c w) e)
        (Ensures-eq (sdk_calls-SameDevice o cs out.1) e'))

fd_callback-SameDevice : (cb : Callback) (w : Worker) → SameDevice w (fd_callback cb w)
unfolding fd_callback tun_received
fd_callback-SameDevice schc_al_tun_received_handler w = record { device = refl; table = refl }
fd_callback-SameDevice downlink_available_callback w = record { device = refl; table = refl }

fd_callbacks-SameDevice : (cbs : List Callback) (w : Worker) → SameDevice w (fd_callbacks cbs w)
unfolding fd_callbacks
fd_callbacks-SameDevice [] w = same w
fd_callbacks-SameDevice (cb ∷ cbs) w =
    SameDevice-trans (fd_callback-SameDevice cb w) (fd_callbacks-SameDevice cbs (fd_callback cb w))

after_wakeup-SameDevice : (r : Wakeup Callback) (w : Worker) → SameDevice w (after_wakeup r w)
unfolding after_wakeup
after_wakeup-SameDevice paused w = same w
after_wakeup-SameDevice poll_error w = same w
after_wakeup-SameDevice idle w = same w
after_wakeup-SameDevice (called cbs) w = fd_callbacks-SameDevice cbs w

run_mgt-SameDevice :
    (o : Options) (turn : Turn) (w : Worker) → Ensures (SameDeviceAs w) (run_mgt o turn w)
unfolding run_mgt
run_mgt-SameDevice o turn w =
    let asked = record w { mgt_process_request = false } in
    let first : SameDevice w asked = record { device = refl; table = refl } in
    Ensures-if w.mgt_process_request (sdk_calls o turn.mgt_process asked) (some ([], w))
      (λ _.
        Ensures-map (SameDeviceAs asked) _ (λ out k. SameDevice-trans first k)
          (sdk_calls-SameDevice o turn.mgt_process asked))
      (λ _. result _ (same w))

consume-device : (b : Bool) (s : Al) → (consume b s).tun_fd ≡ s.tun_fd
unfolding consume
consume-device true s = refl
consume-device false s = refl

consume-table : (b : Bool) (s : Al) → (consume b s).watched_fds ≡ s.watched_fds
unfolding consume
consume-table true s = refl
consume-table false s = refl

run_al-SameDevice :
    (o : Options) (turn : Turn) (w : Worker) → Ensures (SameDeviceAs w) (run_al o turn w)
unfolding run_al
run_al-SameDevice o turn w =
    Ensures-if (not w.al.processing_required) _ _ (λ off. result _ (same w))
      (λ _. Ensures->>= (schc_al_process o turn.send w.al) _ λ out e.
        let kept = schc_al_process-IsSameButBuffer o turn.send w.al e in
        let served : SameDevice w (record w { al = out.2 }) = record {
          device = kept.device ∙ consume-device w.al.ip_packet_available w.al;
          table = kept.table ∙ consume-table w.al.ip_packet_available w.al;
        } in
        Ensures->>= (sdk_calls o turn.sending (record w { al = out.2 })) _ λ more e'. result _ (
          SameDevice-trans served
            (Ensures-eq (sdk_calls-SameDevice o turn.sending (record w { al = out.2 })) e')))

pub turn_around-SameDevice :
    (o : Options) (turn : Turn) (w : Worker) → Ensures (SameDeviceAs w) (turn_around o turn w)
unfolding turn_around
turn_around-SameDevice o turn w = Ensures->>= (run_mgt o turn w) _ λ up e.
    Ensures->>= (run_al o turn up.1) _ λ out e'. result _ (
      SameDevice-trans (Ensures-eq (run_mgt-SameDevice o turn w) e) (
        SameDevice-trans (Ensures-eq (run_al-SameDevice o turn up.1) e') (
          after_wakeup-SameDevice (platform_enter_low_power_ll turn.poll out.1.al.watched_fds)
            out.1)))

pub main_loop-SameDevice :
    (o : Options) (turns : List Turn) (w : Worker) → Ensures (SameDeviceAs w) (main_loop o turns w)
unfolding main_loop
main_loop-SameDevice o [] w = result _ (same w)
main_loop-SameDevice o (turn ∷ turns) w = Ensures->>= (turn_around o turn w) _ λ out e.
    Ensures->>= (main_loop o turns out.1) _ λ more e'. result _ (
      SameDevice-trans (Ensures-eq (turn_around-SameDevice o turn w) e)
        (Ensures-eq (main_loop-SameDevice o turns out.1) e'))
