-- ===== src/L2a.antt =====
-- l2/ahoi_posix_host/src/fullsdkl2a.c: the lower layer between the SDK and the acoustic modem. The
-- callbacks that the SDK registers are a parameter: what it sends in answer to each.
pub mod Events
pub mod Start
mod Tests
use schc_work.Common.{
  ℕ, Bool, true, false, Option, none, some, List, [], ◌∷◌, ◌++◌, length, Bytes, overwrite, ltb,
  if◌then◌else◌, ◌>>=◌, not,
}
use schc_work.Common.Int.{ℤ, is_neg}
use schc_work.Platform.FdTable.{Slot, watch_fd_for_input}
use schc_work.SchcAl.{Callback, downlink_available_callback}

-- `l2a_status_t`
pub data L2aStatus : Type 0 where
  l2a_success l2a_connect_err l2a_l2_error l2a_buffer_err : L2aStatus

-- The calls that go up to the SDK.
pub data Upcall : Type 0 where
  processing_required connectivity_available : Upcall
  transmission_result : L2aStatus → Upcall
  data_received : ℕ → L2aStatus → Upcall

pub data Effect : Type 0 where
  up : Upcall → Effect
  modem_write : Bytes → Effect
  disconnected : ℤ → Effect

-- The static variables, the bits of `event` one by one, and the platform's table.
pub record L2a : Type 0 where
  pub connectivity_event : Bool
  pub transmission_event : Bool
  pub downlink_event : Bool
  pub l2a_rx_buffer : Bytes
  pub l2a_rx_buffer_size : ℕ
  pub ahoifd : ℤ
  pub watched_fds : List (Slot Callback)

-- The answers of `ahoi_write_hdr_pld`.
pub data WriteResult : Type 0 where
  interrupted failed written : WriteResult

pub record Send : Type 0 where
  pub data_sent : Bytes
  pub writes : List WriteResult

abbrev pub Sdk : Type 0
Sdk = Upcall → List Send

abbrev pub no_events : L2a → L2a
no_events s = record s {
  connectivity_event = false;
  transmission_event = false;
  downlink_event = false;
}

-- The loop that repeats the write while it is interrupted, and what it wrote on the way.
pub write_all : Bytes → List WriteResult → Option (Bool × List Effect)
write_all bytes [] = none
write_all bytes (interrupted ∷ writes) = do
  (done, effects) ← write_all bytes writes
  some (done, modem_write bytes ∷ effects)
write_all bytes (failed ∷ writes) = some (false, modem_write bytes ∷ [])
write_all bytes (written ∷ writes) = some (true, modem_write bytes ∷ [])

-- The SDK sends nothing in answer to `processing_required`, which only sets a flag.
pub l2a_send_data : Send → L2a → Option (L2aStatus × List Effect × L2a)
l2a_send_data send s = do
  (done, effects) ← write_all send.data_sent send.writes
  if done
      then some (
        l2a_success,
        effects ++ up processing_required ∷ [],
        record s { transmission_event = true },
      )
      else some (l2a_l2_error, effects, s)

pub send_all : List Send → L2a → Option (List Effect × L2a)
send_all [] s = some ([], s)
send_all (send ∷ sends) s = do
  (status, effects, s') ← l2a_send_data send s
  (more, s'') ← send_all sends s'
  some (effects ++ more, s'')

-- A call that goes up, and what the SDK sends before it returns.
pub call_up : Sdk → Upcall → L2a → Option (List Effect × L2a)
call_up sdk u s = do (effects, s') ← send_all (sdk u) s; some (up u ∷ effects, s')

pub packet_consumer : Sdk → Bytes → L2a → Option (List Effect × L2a)
packet_consumer sdk pkt s =
    if ltb s.l2a_rx_buffer_size (length pkt)
    then call_up sdk (data_received 0 l2a_buffer_err) s
    else do
      buffer ← overwrite s.l2a_rx_buffer 0 pkt
      call_up sdk (data_received (length pkt) l2a_success) (record s { l2a_rx_buffer = buffer })

pub consume_all : Sdk → List Bytes → L2a → Option (List Effect × L2a)
consume_all sdk [] s = some ([], s)
consume_all sdk (pkt ∷ pkts) s = do
  (effects, s') ← packet_consumer sdk pkt s
  (more, s'') ← consume_all sdk pkts s'
  some (effects ++ more, s'')

-- An answer of `ahoi_stateless_read`: the packets that it hands to the consumer, and its status.
pub data RxStatus : Type 0 where
  read_ok read_interrupted read_failed : RxStatus

pub record Read : Type 0 where
  pub packets : List Bytes
  pub status : RxStatus

-- What follows a read; `again` is the loop's next round.
pub after_status :
    Sdk → (L2a → Option (List Effect × L2a)) → RxStatus → L2a → Option (List Effect × L2a)
after_status sdk again read_ok s = some ([], s)
after_status sdk again read_interrupted s = again s
after_status sdk again read_failed s = call_up sdk (data_received 0 l2a_l2_error) s

pub read_downlink : Sdk → List Read → L2a → Option (List Effect × L2a)
read_downlink sdk [] s = none
read_downlink sdk (read ∷ reads) s = do
  (effects, s') ← consume_all sdk read.packets s
  (more, s'') ← after_status sdk (read_downlink sdk reads) read.status s'
  some (effects ++ more, s'')

-- `if (event & ...)` in front of a step.
pub when : Bool → (L2a → Option (List Effect × L2a)) → L2a → Option (List Effect × L2a)
when true step s = step s
when false step s = some ([], s)

pub l2a_process : Sdk → List Read → L2a → Option (L2aStatus × List Effect × L2a)
l2a_process sdk reads s = do
  (e₁, s₁) ← when s.connectivity_event (call_up sdk connectivity_available) s
  (e₂, s₂) ← when s₁.transmission_event (call_up sdk (transmission_result l2a_success)) s₁
  (e₃, s₃) ← when s₂.downlink_event (read_downlink sdk reads) s₂
  some (l2a_success, e₁ ++ (e₂ ++ e₃), no_events s₃)

-- `connected` is the descriptor from `ahoi_connect`, or `none` if it failed.
pub l2a_initialize : Option ℤ → Bytes → ℕ → L2a → Option (L2aStatus × List Effect × L2a)
l2a_initialize none buffer size s = some (
  l2a_connect_err,
  [],
  record (no_events s) { l2a_rx_buffer = buffer; l2a_rx_buffer_size = size },
)
l2a_initialize (some fd) buffer size s = do
  (done, slots) ← watch_fd_for_input fd (some downlink_available_callback) s.watched_fds
  let s' = record (no_events s) {
    l2a_rx_buffer = buffer;
    l2a_rx_buffer_size = size;
    ahoifd = fd;
    connectivity_event = true;
    watched_fds = slots;
  }
  some ((if done then l2a_success else l2a_connect_err), up processing_required ∷ [], s')

pub downlink_available : L2a → List Effect × L2a
downlink_available s = (up processing_required ∷ [], record s { downlink_event = true })

-- The descriptor stays in `ahoifd` and in the platform's table.
pub l2_deinit : L2a → List Effect × L2a
l2_deinit s = if is_neg s.ahoifd then ([], s) else (disconnected s.ahoifd ∷ [], s)
