-- ===== src/Worker.antt =====
-- applications/schc_worker_linux/src/main.c: the event loop of the worker, on top of the
-- adaptation layer and the platform.
pub mod Laws
pub mod Device
pub mod Main
pub mod SdkTimers
mod Tests
use schc_work.Common.{
  ℕ, Bytes, Bool, true, false, not, Option, none, some, List, [], ◌∷◌, ◌++◌, if◌then◌else◌, ◌>>=◌,
}
use schc_work.Common.Int.{ℤ}
use schc_work.Platform.FdTable.{
  PollResult, Wakeup, paused, poll_error, idle, called, platform_enter_low_power_ll,
}
use schc_work.SchcAl.{
  Al, Options, Callback, schc_al_tun_received_handler, downlink_available_callback, Effect,
  SendAnswers, ProcessStatus, send_down_ok, tun_received, schc_al_process, net_transmission_result,
}
use schc_work.SchcAl.ForwardUp.{UpAnswers, NetStatus, net_data_received}

-- `mgt_process_request` and the variables of the adaptation layer.
pub record Worker : Type 0 where
  pub mgt_process_request : Bool
  pub al : Al

-- What the SDK calls back while `mgt_process` or `net_sendto` runs: `cb_mgt_processing_required`,
-- `net_transmission_result`, and `net_data_received` with a buffer, its size and a status. The other
-- callbacks change no variable of the worker.
pub data SdkCall : Type 0 where
  processing_required transmission_result : SdkCall
  data_received : UpAnswers → Bytes → ℕ → NetStatus → SdkCall

pub sdk_call : Options → SdkCall → Worker → Option (List Effect × Worker)
sdk_call o processing_required w = some ([], record w { mgt_process_request = true })
sdk_call o transmission_result w = some ([], record w { al = net_transmission_result w.al })
sdk_call o (data_received answers buffer data_size status) w = do
  (effects, buffer') ← net_data_received o answers w.al buffer data_size status
  some (effects, w)

pub sdk_calls : Options → List SdkCall → Worker → Option (List Effect × Worker)
sdk_calls o [] w = some ([], w)
sdk_calls o (c ∷ calls) w = do
  (effects, w') ← sdk_call o c w
  (more, w'') ← sdk_calls o calls w'
  some (effects ++ more, w'')

-- A callback that the platform calls when a descriptor is ready: `tun_received` of the adaptation
-- layer, or the one of the lower layer, which asks the SDK for processing.
pub fd_callback : Callback → Worker → Worker
fd_callback schc_al_tun_received_handler w = record w { al = tun_received w.al }
fd_callback downlink_available_callback w = record w { mgt_process_request = true }

pub fd_callbacks : List Callback → Worker → Worker
fd_callbacks [] w = w
fd_callbacks (cb ∷ cbs) w = fd_callbacks cbs (fd_callback cb w)

-- What the outside does in one turn of the loop: the calls that `mgt_process` makes, the answers
-- to `schc_al_process`, the calls that the SDK makes while it sends, the answer of `poll`.
pub record Turn : Type 0 where
  pub mgt_process : List SdkCall
  pub send : SendAnswers
  pub sending : List SdkCall
  pub poll : List ℤ → PollResult

-- `if (mgt_process_request) { mgt_process_request = false; mgt_process(); }`
pub run_mgt : Options → Turn → Worker → Option (List Effect × Worker)
run_mgt o turn w =
    if w.mgt_process_request
    then sdk_calls o turn.mgt_process (record w { mgt_process_request = false })
    else some ([], w)

-- `if (schc_al_is_processing_required()) schc_al_process();`
pub run_al : Options → Turn → Worker → Option (List Effect × Worker)
run_al o turn w = if not w.al.processing_required then some ([], w) else do
  (status, effects, al) ← schc_al_process o turn.send w.al
  (more, w') ← sdk_calls o turn.sending (record w { al = al })
  some (effects ++ more, w')

pub after_wakeup : Wakeup Callback → Worker → Worker
after_wakeup paused w = w
after_wakeup poll_error w = w
after_wakeup idle w = w
after_wakeup (called cbs) w = fd_callbacks cbs w

-- The body of `while (!terminate_flag)`.
pub turn_around : Options → Turn → Worker → Option (List Effect × Worker)
turn_around o turn w = do
  (up, w') ← run_mgt o turn w
  (down, w'') ← run_al o turn w'
  some (up ++ down, after_wakeup (platform_enter_low_power_ll turn.poll w''.al.watched_fds) w'')

-- The loop, until the signal handler has set the flag.
pub main_loop : Options → List Turn → Worker → Option (List Effect × Worker)
main_loop o [] w = some ([], w)
main_loop o (turn ∷ turns) w = do
  (effects, w') ← turn_around o turn w
  (more, w'') ← main_loop o turns w'
  some (effects ++ more, w'')
