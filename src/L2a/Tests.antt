-- ===== src/L2a/Tests.antt =====
-- Runs of the lower layer, and the theorems at concrete states.
use mathlib.Core.List.{Nodup-nil}
use schc_work.Common.{◌≡◌, refl, true, false, none, some, List, [], ◌∷◌, arith, replicate}
use schc_work.Common.Int.{pos, minus_one}
use schc_work.Platform.FdTable.{Slot, used, scan, set_fd, watch_fd_for_input}
use schc_work.Platform.FdTable.Laws.{IsValid}
use schc_work.SchcAl.{Callback, downlink_available_callback}
use schc_work.L2a.{
  l2a_success, l2a_buffer_err, processing_required, connectivity_available, transmission_result,
  data_received, Effect, up, modem_write, L2a, interrupted, written, Send, Sdk, write_all, read_ok,
  read_interrupted, Read, l2a_process, l2a_initialize,
}
use schc_work.L2a.Events.{reports_of_reads, joined, IsQuiet, l2a_process-IsQuiet, l2a_process-lost}
use schc_work.L2a.Start.{started_on, Initialized, l2a_initialize-Initialized}

-- A start with a table that watches nothing, and a buffer of four bytes.
abbrev unused : List (Slot Callback)
unused = record { fd = minus_one; cb = none } ∷ replicate 7 (record { fd = pos 0; cb = none })

abbrev modem : L2a
modem = record {
  connectivity_event = true;
  transmission_event = true;
  downlink_event = true;
  l2a_rx_buffer = replicate 4 0;
  l2a_rx_buffer_size = 4;
  ahoifd = pos 5;
  watched_fds = unused;
}

-- Two packets, one too large, over an interrupted read and a complete one.
abbrev reads : List Read
reads =
    record { packets = (7 ∷ 8 ∷ []) ∷ []; status = read_interrupted }
    ∷ record { packets = (1 ∷ 2 ∷ 3 ∷ 4 ∷ 5 ∷ []) ∷ []; status = read_ok }
    ∷ []

abbrev downlinks : List Effect
downlinks = up (data_received 2 l2a_success) ∷ up (data_received 0 l2a_buffer_err) ∷ []

reported_reads : reports_of_reads 4 reads ≡ some downlinks
unfolding reports_of_reads joined
reported_reads = refl

abbrev silent : Sdk
silent u = []

l2a_process-IsQuiet_example :
    (s' : L2a) × (l2a_process silent reads modem
      ≡ some (
        l2a_success,
        up connectivity_available ∷ up (transmission_result l2a_success) ∷ downlinks,
        s',
      ))
    × IsQuiet s'
l2a_process-IsQuiet_example =
    l2a_process-IsQuiet silent (λ u. refl) modem reads downlinks (omega arith) reported_reads

-- The next fragment, which the modem takes at the second attempt.
abbrev fragment : Send
fragment = record { data_sent = 9 ∷ []; writes = interrupted ∷ written ∷ [] }

-- An SDK that sends it as soon as the previous one is reported.
abbrev eager : Sdk
eager (transmission_result status) = fragment ∷ []
eager processing_required = []
eager connectivity_available = []
eager (data_received size status) = []

abbrev sending : L2a
sending = record modem { connectivity_event = false; downlink_event = false }

wrote_twice :
    write_all (9 ∷ []) (interrupted ∷ written ∷ [])
    ≡ some (true, modem_write (9 ∷ []) ∷ modem_write (9 ∷ []) ∷ [])
unfolding write_all
wrote_twice = refl

l2a_process-lost_example :
    (s' : L2a) × (l2a_process eager [] sending
      ≡ some (
        l2a_success,
        up (transmission_result l2a_success)
            ∷ modem_write (9 ∷ [])
            ∷ modem_write (9 ∷ [])
            ∷ up processing_required
            ∷ [],
        s',
      ))
    × (l2a_process eager [] s' ≡ some (l2a_success, [], s'))
l2a_process-lost_example =
    l2a_process-lost eager fragment sending (modem_write (9 ∷ []) ∷ modem_write (9 ∷ []) ∷ []) [] []
      refl wrote_twice refl refl refl

unused-IsValid : IsValid unused
unfolding used
unused-IsValid = record { size = refl; nonneg = tt; distinct = Nodup-nil }

l2a_initialize-Initialized_example :
    Initialized (pos 5) (0 ∷ []) 1 modem (l2a_initialize (some (pos 5)) (0 ∷ []) 1 modem)
l2a_initialize-Initialized_example =
    l2a_initialize-Initialized (pos 5) (0 ∷ []) 1 modem unused-IsValid

abbrev started : L2a
started =
    started_on (pos 5) (0 ∷ []) 1
      (record { fd = pos 5; cb = some downlink_available_callback }
        ∷ record { fd = minus_one; cb = none }
        ∷ replicate 6 (record { fd = pos 0; cb = none }))
      modem

start_run :
    l2a_initialize (some (pos 5)) (0 ∷ []) 1 modem
    ≡ some (l2a_success, up processing_required ∷ [], started)
unfolding l2a_initialize watch_fd_for_input scan set_fd
start_run = refl
