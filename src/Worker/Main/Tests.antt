-- ===== src/Worker/Main/Tests.antt =====
-- A run of the worker that is stopped by a signal in its second turn, and the theorems at it.
use schc_work.Common.{
  ◌≡◌, refl, ℕ, Bool, true, false, none, some, List, [], ◌∷◌, ◌++◌, ◌==◌, replicate, arith,
}
use schc_work.Common.Int.{pos, minus_one}
use schc_work.Platform.FdTable.{
  used, scan, set_fd, watch_fd_for_input, unwatch_fd_for_input, last_used,
  platform_enter_low_power_ll, wake, after_poll, call_ready, call_one,
}
use schc_work.SchcAl.{
  closed, schc_al_init, set_up_tun, schc_al_terminate, tun_received, schc_al_process,
  schc_al_send_down, read_tun, after_read,
}
use schc_work.Worker.{
  run_mgt, run_al, turn_around, after_wakeup, fd_callbacks, fd_callback, sdk_calls,
}
use schc_work.Worker.Tests.{options, al_down, willing, al_down-IsValid, turn}
use schc_work.Worker.Main.{
  Config, MainEffect, ahoi_disconnected, al, Process, MainAnswers, Round, returned, sdk_app_mode,
  set_addresses, set_mode, initialized, start_al, set_up, set_up_calls, terminate, main_while,
  exit_with, after_loop, after_set_up, main, mgt_initialize, net_initialize, sigaction_sigint,
  sigaction_sigterm,
}
use schc_work.Worker.Main.Release.{IsReleased, Ran, main-IsReleased}
use schc_work.Worker.Main.Returns.{SetUp, Ends, before_init, main-Exits}

abbrev config : Config
config = record {
  l2_max_mtu = 1000;
  l2_tx_delay = 2000;
  schc_peer_mode = true;
  ipv6_host = 1 ∷ [];
  ipv6_peer = 2 ∷ [];
  udp_host_port = 3 ∷ [];
  udp_peer_port = 4 ∷ [];
}

abbrev rounds : ℕ → Round
rounds n = record { turn = turn; signal = n == 2 }

abbrev answers : MainAnswers
answers = record {
  inet_pton = λ text. text;
  atoi = λ text. 5683;
  mgt_ok = true;
  modem = pos 4;
  watched_fds = al_down.watched_fds;
  net_ok = true;
  init = willing;
  sigint_ok = true;
  sigterm_ok = true;
}

abbrev begin : Process
begin = record {
  addresses = record {
    host_ipv6_addr = [];
    host_udp_port = [];
    remote_ipv6_addr = [];
    remote_udp_port = [];
  };
  sdk_mode = sdk_app_mode;
  ahoifd = minus_one;
  worker = record { mgt_process_request = false; al = al_down };
}

main-Exits_example :
    (start : Bool × List MainEffect × Process) × (set_up config options answers begin ≡ some start)
    × SetUp answers
        (schc_al_init options answers.init
          (before_init options answers al_down-IsValid config begin))
        start.0
    × Ends options answers al_down-IsValid rounds 2 start
        (main config options answers rounds 3 begin)
main-Exits_example =
    main-Exits options answers al_down-IsValid config rounds 2 3 begin refl (λ j l. ground arith)
      refl (omega arith)

abbrev ended : Process
ended = record {
  addresses =
      set_addresses answers config.ipv6_peer config.udp_peer_port config.ipv6_host
        config.udp_host_port begin.addresses;
  sdk_mode = sdk_app_mode;
  ahoifd = pos 4;
  worker = record {
    mgt_process_request = false;
    al = record al_down {
      watched_fds =
          record { fd = minus_one; cb = none }
          ∷ record { fd = minus_one; cb = none }
          ∷ replicate 6 (record { fd = pos 0; cb = none });
    };
  };
}

abbrev calls : List MainEffect
calls =
    set_up_calls config
    ++ mgt_initialize
      ∷ net_initialize
      ∷ sigaction_sigint
      ∷ sigaction_sigterm
      ∷ al (closed (pos 3))
      ∷ ahoi_disconnected (pos 4)
      ∷ []

run : main config options answers rounds 3 begin ≡ some (returned (pos 0), calls, ended)
unfolding main set_up set_up_calls start_al set_mode initialized schc_al_init set_up_tun
    watch_fd_for_input scan set_fd after_set_up main_while turn_around run_mgt run_al after_wakeup
    fd_callbacks fd_callback sdk_calls tun_received schc_al_process schc_al_send_down read_tun
    after_read platform_enter_low_power_ll used wake after_poll call_ready call_one after_loop
    exit_with terminate schc_al_terminate unwatch_fd_for_input last_used
run = refl

main-IsReleased_example :
    (start : Bool × List MainEffect × Process) × (ran : List MainEffect) × (set_up config options
        answers begin
      ≡ some start)
    × Ran options rounds 3 start ran
    × IsReleased al_down.watched_fds
        (pos 4)
        start.2.worker.al.tun_fd
        (start.1 ++ ran)
        calls
        ended.worker.al
main-IsReleased_example =
    main-IsReleased options answers al_down-IsValid config rounds 3 begin refl run
