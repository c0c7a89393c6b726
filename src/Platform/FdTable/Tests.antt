-- ===== src/Platform/FdTable/Tests.antt =====
-- Runs of the table, and the theorems at concrete tables. The callbacks are numbers here.
use mathlib.Core.List.{Mem, Nodup-cons, Nodup-nil, mem-cons, not-mem-nil}
use mathlib.Core.Logic.Or
use mathlib.Core.HLevel.{⊥_prop}
use schc_work.Common.{ℕ, ◌≡◌, refl, ◌≢◌, ◌↔◌, true, false, none, some, List, [], ◌∷◌, replicate}
use schc_work.Common.Int.{ℤ, pos}
use schc_work.Platform.FdTable.{
  Slot, initial, cleared, scan, set_fd, last_used, used, watch_fd_for_input, unwatch_fd_for_input,
  PollResult, ready, paused, called, platform_enter_low_power_ll,
}
use schc_work.Platform.FdTable.Laws.{IsValid, watched, Watched, watch_fd_for_input-Watched}
use schc_work.Platform.FdTable.Unwatch.{Unwatched, unwatch_fd_for_input-Unwatched}
use schc_work.Platform.FdTable.History.{Call, watch, unwatch, run, run-initial-IsValid}
use schc_work.Platform.FdTable.Poll.{IsDue, platform_enter_low_power_ll_lem}

abbrev slot : ℕ → ℕ → Slot ℕ
slot n cb = record { fd = pos n; cb = some cb }

-- Descriptors 3 and 7 are watched.
abbrev two_watched : List (Slot ℕ)
two_watched = slot 3 30 ∷ slot 7 70 ∷ cleared ∷ replicate 5 (record { fd = pos 0; cb = none })

watch_twice :
    watch_fd_for_input
      (pos 7)
      (some 70)
      (slot 3 30 ∷ cleared ∷ replicate 6 (record { fd = pos 0; cb = none }))
    ≡ some (true, two_watched)
unfolding watch_fd_for_input scan set_fd
watch_twice = refl

watch_again : watch_fd_for_input (pos 3) (some 31) two_watched ≡ some (false, two_watched)
unfolding watch_fd_for_input scan set_fd
watch_again = refl

unwatch_first :
    unwatch_fd_for_input (pos 3) two_watched
    ≡ some (true, slot 7 70 ∷ cleared ∷ cleared ∷ replicate 5 (record { fd = pos 0; cb = none }))
unfolding unwatch_fd_for_input scan last_used
unwatch_first = refl

two_watched-IsValid : IsValid two_watched
unfolding used
two_watched-IsValid = record {
  size = refl;
  nonneg = (refl, (refl, tt));
  distinct = Nodup-cons.1 ((λ m. distinct_fds m), Nodup-cons.1 (not-mem-nil, Nodup-nil));
}
  where
    distinct_fds : ¬ Mem (pos 3) (pos 7 ∷ [])
    distinct_fds m = Or.elim ⊥_prop (mem-cons.0 m) (λ e. cc) not-mem-nil

watch_fd_for_input-Watched_example :
    Watched (pos 9) (some 90) two_watched (watch_fd_for_input (pos 9) (some 90) two_watched)
watch_fd_for_input-Watched_example =
    watch_fd_for_input-Watched (pos 9) (some 90) two_watched two_watched-IsValid

unwatch_fd_for_input-Unwatched_example :
    Unwatched (pos 3) two_watched (unwatch_fd_for_input (pos 3) two_watched)
unwatch_fd_for_input-Unwatched_example =
    unwatch_fd_for_input-Unwatched (pos 3) two_watched two_watched-IsValid

abbrev second_ready : List ℤ → PollResult
second_ready fds = ready (false ∷ true ∷ [])

platform_enter_low_power_ll_lem_example :
    ((watched two_watched ≡ []) → platform_enter_low_power_ll second_ready two_watched ≡ paused)
    × (watched two_watched ≢ []
        → second_ready (watched two_watched) ≡ ready (false ∷ true ∷ [])
        → (calls : List ℕ) × (platform_enter_low_power_ll second_ready two_watched ≡ called calls)
          × ((cb : ℕ) → Mem cb calls ↔ IsDue cb (used two_watched) (false ∷ true ∷ [])))
platform_enter_low_power_ll_lem_example =
    platform_enter_low_power_ll_lem second_ready two_watched (false ∷ true ∷ [])

abbrev some_calls : List (Call ℕ)
some_calls = watch (pos 3) (some 30) ∷ watch (pos 7) (some 70) ∷ unwatch (pos 3) ∷ []

run-initial-IsValid_example :
    (slots' : List (Slot ℕ)) × (run some_calls initial ≡ some slots') × IsValid slots'
run-initial-IsValid_example = run-initial-IsValid some_calls
