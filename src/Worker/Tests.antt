-- ===== src/Worker/Tests.antt =====
-- A run of the event loop, and the theorem at a concrete worker.
use mathlib.Core.List.{Nodup-nil}
use schc_work.Common.{◌≡◌, refl, true, false, none, some, [], ◌∷◌, replicate}
use schc_work.Common.Int.{pos, minus_one}
use schc_work.Oscore.{ok}
use schc_work.Platform.FdTable.{
  used, scan, set_fd, watch_fd_for_input, ready, platform_enter_low_power_ll, wake, after_poll,
  call_ready, call_one,
}
use schc_work.Platform.FdTable.Laws.{IsValid}
use schc_work.SchcAl.{
  Al, Options, InitAnswers, schc_al_init, set_up_tun, would_block, last, tun_received,
  schc_al_process,
}
use schc_work.SchcAl.Lifecycle.{running_on, tun_entry}
use schc_work.Worker.{
  Worker, Turn, run_mgt, run_al, turn_around, main_loop, after_wakeup, fd_callbacks, fd_callback,
  sdk_calls,
}
use schc_work.Worker.Laws.{handled, main_loop-served}

abbrev pub options : Options
options = record {
  oscore_proxy_enabled = false;
  drop_non_coap = true;
  oscore_drop_on_error = true;
  inner_schc = false;
}

abbrev pub al_down : Al
al_down = record {
  processing_required = false;
  connectivity_available = false;
  ip_packet_available = false;
  ongoing_transmission = false;
  tun_fd = minus_one;
  net_buffer = replicate 60 0;
  watched_fds =
      record { fd = minus_one; cb = none } ∷ replicate 7 (record { fd = pos 0; cb = none });
}

abbrev pub willing : InitAnswers
willing = record {
  context_ok = true;
  tun = pos 3;
  link_up = true;
  addr_added = true;
  route_replaced = true;
}

abbrev pub start : Worker
start = record {
  mgt_process_request = false;
  al =
      running_on (pos 3)
        (tun_entry (pos 3)
          ∷ record { fd = minus_one; cb = none }
          ∷ replicate 6 (record { fd = pos 0; cb = none }))
        al_down;
}

init_run : schc_al_init options willing al_down ≡ some (pos 0, [], start.al)
unfolding schc_al_init set_up_tun watch_fd_for_input scan set_fd
init_run = refl

pub al_down-IsValid : IsValid al_down.watched_fds
unfolding used
al_down-IsValid = record { size = refl; nonneg = tt; distinct = Nodup-nil }

-- The SDK has nothing to say, `read` finds no packet, and the TUN device is ready.
abbrev pub turn : Turn
turn = record {
  mgt_process = [];
  send = record {
    reads = last would_block;
    coap2oscore = λ cb p room. (ok, p);
    net_sendto = λ p. true;
  };
  sending = [];
  poll = λ fds. ready (true ∷ []);
}

-- The packet that came in while the worker slept.
abbrev woken : Worker
woken = record start { al = record start.al { ip_packet_available = true } }

first_turn : main_loop options (turn ∷ []) start ≡ some ([], woken)
unfolding main_loop turn_around run_mgt run_al after_wakeup fd_callbacks fd_callback sdk_calls
    tun_received schc_al_process platform_enter_low_power_ll used wake after_poll call_ready
    call_one
first_turn = refl

second_turn : run_mgt options turn woken ≡ some ([], woken)
unfolding run_mgt
second_turn = refl

main_loop-served_example : run_al options turn woken ≡ handled options turn woken
main_loop-served_example =
    main_loop-served options willing al_down (pos 0) [] start woken al_down-IsValid init_run
      (turn ∷ []) first_turn turn second_turn refl
