-- ===== src/Worker/Main.antt =====
-- applications/schc_worker_linux/src/main.c: the function `main` with L2_STACK_ahoi_posix_host, from
-- the set-up over the event loop to the end.
pub mod Ending
pub mod Holds
pub mod Release
pub mod Returns
mod Tests
use Prim.Native.String.{String}
use schc_work.Common.{
  ℕ, zero, suc, ◌+◌, Bool, true, false, not, ◌||◌, Option, none, some, List, [], ◌∷◌, ◌++◌, map,
  Bytes, ◌==◌, if◌then◌else◌, ◌>>=◌,
}
use schc_work.Common.Int.{ℤ, pos, minus_one, is_neg, eq_ℤ}
use schc_work.Rules.{ascii}
use schc_work.Rules.Outer.{Addresses}
use schc_work.InnerSchc.{
  net_set_host_static_ip, net_set_host_static_port, net_set_remote_static_ip,
  net_set_remote_static_port,
}
use schc_work.Platform.FdTable.{Slot}
use schc_work.SchcAl.{Al, Options, Callback, Effect, InitAnswers, schc_al_init, schc_al_terminate}
use schc_work.Worker.{Worker, Turn, turn_around}

pub data SdkMode : Type 0 where
  sdk_app_mode sdk_device_mode : SdkMode

-- The build's parameters. Each string is given as its characters.
pub record Config : Type 0 where
  pub l2_max_mtu : ℕ
  pub l2_tx_delay : ℕ
  pub schc_peer_mode : Bool
  pub ipv6_host : Bytes
  pub ipv6_peer : Bytes
  pub udp_host_port : Bytes
  pub udp_peer_port : Bytes

-- The calls of `main`; `al` is what the adaptation layer does, `ahoi_disconnected` what `l2_deinit`
-- does with an open modem.
pub data MainEffect : Type 0 where
  timer_init l2_set_next_tx_delay l2_set_mtu l2_set_iid : ℕ → MainEffect
  l2_set_serial_port : Bytes → MainEffect
  mgt_initialize net_initialize sigaction_sigint sigaction_sigterm : MainEffect
  al : Effect → MainEffect
  ahoi_disconnected : ℤ → MainEffect

-- `worker` has the variables that the loop changes, `ahoifd` is that of the lower layer.
pub record Process : Type 0 where
  pub addresses : Addresses
  pub sdk_mode : SdkMode
  pub ahoifd : ℤ
  pub worker : Worker

-- What the set-up is answered. The SDK initializes the lower layer, which leaves the descriptor of
-- the modem and the platform's table.
pub record MainAnswers : Type 0 where
  pub inet_pton : Bytes → Bytes
  pub atoi : Bytes → ℕ
  pub mgt_ok : Bool
  pub modem : ℤ
  pub watched_fds : List (Slot Callback)
  pub net_ok : Bool
  pub init : InitAnswers
  pub sigint_ok : Bool
  pub sigterm_ok : Bool

abbrev pub ahoi_port : Bytes
ahoi_port = ascii "/run/user/1000/slv_triggered_prod"

abbrev pub ahoi_id : ℕ
ahoi_id = 0x0A

-- The calls before the SDK is initialized.
pub set_up_calls : Config → List MainEffect
set_up_calls c =
    timer_init 0
    ∷ timer_init 1
    ∷ timer_init 2
    ∷ l2_set_mtu c.l2_max_mtu
    ∷ l2_set_next_tx_delay c.l2_tx_delay
    ∷ l2_set_serial_port ahoi_port
    ∷ l2_set_iid ahoi_id
    ∷ []

-- The addresses and ports: of the host and the remote, each at its place.
pub set_addresses : MainAnswers → Bytes → Bytes → Bytes → Bytes → Addresses → Addresses
set_addresses answers host_ip host_port remote_ip remote_port a =
    net_set_remote_static_port answers.atoi
      (net_set_remote_static_ip answers.inet_pton
        (net_set_host_static_port answers.atoi (net_set_host_static_ip answers.inet_pton a host_ip)
          host_port)
        remote_ip)
      remote_port

pub set_mode : Config → MainAnswers → Process → Process
set_mode c answers p =
    if c.schc_peer_mode
    then record p {
      sdk_mode = sdk_app_mode;
      addresses =
          set_addresses answers c.ipv6_peer c.udp_peer_port c.ipv6_host c.udp_host_port p.addresses;
    }
    else record p {
      sdk_mode = sdk_device_mode;
      addresses =
          set_addresses answers c.ipv6_host c.udp_host_port c.ipv6_peer c.udp_peer_port p.addresses;
    }

-- `mgt_initialize`, with what the lower layer leaves.
pub initialized : MainAnswers → Process → Process
initialized answers p =
    let w = p.worker in
    let s = w.al in
    record p {
      ahoifd = answers.modem;
      worker = record w { al = record s { watched_fds = answers.watched_fds } };
    }

-- From `schc_al_init` to the handlers of the signals. The Boolean tells whether the loop is reached.
pub start_al :
    Options → MainAnswers → List MainEffect → Process → Option (Bool × List MainEffect × Process)
start_al o answers calls p = do
  (status, effects, s) ← schc_al_init o answers.init p.worker.al
  let w = p.worker
  let p' = record p { worker = record w { al = s } }
  let done = calls ++ map al effects
  if not (eq_ℤ status (pos 0))
      then some (false, done, p')
      else if not answers.sigint_ok
      then some (false, done ++ sigaction_sigint ∷ [], p')
      else some (answers.sigterm_ok, done ++ sigaction_sigint ∷ sigaction_sigterm ∷ [], p')

-- The set-up: three calls that may fail, in this order, and the handlers.
pub set_up : Config → Options → MainAnswers → Process → Option (Bool × List MainEffect × Process)
set_up c o answers p =
    let calls = set_up_calls c ++ mgt_initialize ∷ [] in
    let p' = initialized answers (set_mode c answers p) in
    if not answers.mgt_ok
    then some (false, calls, p')
    else if not answers.net_ok
    then some (false, calls ++ net_initialize ∷ [], p')
    else start_al o answers (calls ++ net_initialize ∷ []) p'

-- `terminate`
pub terminate : Process → Option (List MainEffect × Process)
terminate p = do
  (status, effects, s) ← schc_al_terminate p.worker.al
  let w = p.worker
  let modem = if is_neg p.ahoifd then [] else ahoi_disconnected p.ahoifd ∷ []
  some (map al effects ++ modem, record p { worker = record w { al = s } })

-- A turn of the loop, and whether SIGINT or SIGTERM has arrived when the flag is tested before it.
pub record Round : Type 0 where
  pub turn : Turn
  pub signal : Bool

-- `while (!terminate_flag)` from the test before the turn `i` on, with the flag that it finds; the
-- first number is the fuel. The Boolean tells whether the loop has ended.
pub main_while :
    Options → (ℕ → Round) → ℕ → ℕ → Bool → Worker → Option (Bool × List Effect × Worker)
main_while o rounds zero i flag w = some (false, [], w)
main_while o rounds (suc fuel) i true w = some (true, [], w)
main_while o rounds (suc fuel) i false w = do
  (effects, w') ← turn_around o (rounds i).turn w
  (ended, more, w'') ← main_while o rounds fuel (i + 1) (rounds (i + 1)).signal w'
  some (ended, effects ++ more, w'')

-- How a run of `main` ends.
pub data Exit : Type 0 where
  still_running : Exit
  returned : ℤ → Exit

-- The end with a status.
pub exit_with : ℤ → List MainEffect → Process → Option (Exit × List MainEffect × Process)
exit_with code calls p = do (effects, p') ← terminate p; some (returned code, calls ++ effects, p')

pub after_loop :
    List MainEffect
    → Process
    → Bool × List Effect × Worker
    → Option (Exit × List MainEffect × Process)
after_loop calls p (false, effects, w) =
    some (still_running, calls ++ map al effects, record p { worker = w })
after_loop calls p (true, effects, w) =
    exit_with (pos 0) (calls ++ map al effects) (record p { worker = w })

pub after_set_up :
    Options
    → (ℕ → Round)
    → ℕ
    → Bool × List MainEffect × Process
    → Option (Exit × List MainEffect × Process)
after_set_up o rounds fuel (false, calls, p) = exit_with minus_one calls p
after_set_up o rounds fuel (true, calls, p) = do
  r ← main_while o rounds fuel 0 (rounds 0).signal p.worker
  after_loop calls p r

pub main :
    Config
    → Options
    → MainAnswers
    → (ℕ → Round)
    → ℕ
    → Process
    → Option (Exit × List MainEffect × Process)
main c o answers rounds fuel p = do r ← set_up c o answers p; after_set_up o rounds fuel r
