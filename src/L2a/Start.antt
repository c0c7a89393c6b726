-- ===== src/L2a/Start.antt =====
-- The start and the end of the lower layer.
use mathlib.Core.List.{Nodup, Mem, Nodup-append, map-append, mem-append, mem-cons}
use mathlib.Core.Logic.Or
use schc_work.Common.{
  ℕ, ◌≡◌, refl, sym, ◌∙◌, Bool, true, false, Option, some, List, [], ◌∷◌, ◌++◌, Bytes,
  if◌then◌else◌, Bool-cases, inl, inr,
}
use schc_work.Common.Int.{ℤ, is_neg}
use schc_work.Platform.FdTable.{Slot, used, watch_fd_for_input}
use schc_work.Platform.FdTable.Laws.{
  IsValid, watched, Watched, stored, refused, watch_fd_for_input-Watched,
}
use schc_work.SchcAl.{Callback, downlink_available_callback}
use schc_work.L2a.{
  L2aStatus, l2a_success, l2a_connect_err, Effect, up, processing_required, L2a, no_events,
  l2a_initialize, l2_deinit,
}

-- A descriptor that is watched is refused.
Mem-refused :
    (fd : ℤ) (cb : Option Callback) (slots : List (Slot Callback))
    {r : Option (Bool × List (Slot Callback))}
    → Mem fd (watched slots)
    → Watched fd cb slots r
    → r ≡ some (false, slots)
Mem-refused fd cb slots m (stored slots' e view v) =
    let parts : Nodup (watched slots ++ fd ∷ []) = rw (view, map-append) at (v.distinct) in
    absurd ((Nodup-append.0 parts).2 fd m (mem-cons.1 (Or.inl refl)))
Mem-refused fd cb slots m (refused e why) = e

-- The state that a start leaves behind, with the table of the platform.
abbrev pub started_on : ℤ → Bytes → ℕ → List (Slot Callback) → L2a → L2a
started_on fd buffer size slots s = record (no_events s) {
  l2a_rx_buffer = buffer;
  l2a_rx_buffer_size = size;
  ahoifd = fd;
  connectivity_event = true;
  watched_fds = slots;
}

l2a_initialize_watched :
    (fd : ℤ) (buffer : Bytes) (size : ℕ) (s : L2a) (done : Bool) (slots : List (Slot Callback))
    → watch_fd_for_input fd (some downlink_available_callback) s.watched_fds ≡ some (done, slots)
    → l2a_initialize (some fd) buffer size s
      ≡ some (
        (if done then l2a_success else l2a_connect_err),
        up processing_required ∷ [],
        started_on fd buffer size slots s,
      )
unfolding l2a_initialize
l2a_initialize_watched fd buffer size s done slots e = rw e refl

-- What a start on a descriptor does to the table: it is watched for downlinks and the status is a
-- success; or the platform refuses it and the status is an error.
pub data Initialized (fd : ℤ) (buffer : Bytes) (size : ℕ) (s : L2a)
    (r : Option (L2aStatus × List Effect × L2a)) : Type 0 where
  watching :
      (slots : List (Slot Callback))
      → r ≡ some (l2a_success, up processing_required ∷ [], started_on fd buffer size slots s)
      → used slots
        ≡ used s.watched_fds ++ record { fd = fd; cb = some downlink_available_callback } ∷ []
      → IsValid slots
      → Initialized fd buffer size s r
  not_watching :
      r
        ≡ some (
          l2a_connect_err,
          up processing_required ∷ [],
          started_on fd buffer size s.watched_fds s,
        )
      → Initialized fd buffer size s r

-- Whenever the modem could be opened, `l2a_initialize` on a valid table asks for processing with
-- only the connectivity event pending, and accesses nothing outside of the table. Either the
-- descriptor is watched, behind the others in a valid table, and the status is a success, or the
-- table is as it was and the status is an error.
pub l2a_initialize-Initialized :
    (fd : ℤ) (buffer : Bytes) (size : ℕ) (s : L2a)
    → IsValid s.watched_fds
    → Initialized fd buffer size s (l2a_initialize (some fd) buffer size s)
l2a_initialize-Initialized fd buffer size s v =
    outcome (watch_fd_for_input-Watched fd (some downlink_available_callback) s.watched_fds v) refl
  where
    outcome :
        {r : Option (Bool × List (Slot Callback))}
        → Watched fd (some downlink_available_callback) s.watched_fds r
        → r ≡ watch_fd_for_input fd (some downlink_available_callback) s.watched_fds
        → Initialized fd buffer size s (l2a_initialize (some fd) buffer size s)
    outcome (stored slots e view v') same =
        watching slots (l2a_initialize_watched fd buffer size s true slots (sym same ∙ e)) view v'
    outcome (refused e why) same =
        not_watching (l2a_initialize_watched fd buffer size s false s.watched_fds (sym same ∙ e))

l2_deinit-same : (s : L2a) → (l2_deinit s).1 ≡ s
unfolding l2_deinit
l2_deinit-same s = elim (Bool-cases (is_neg s.ahoifd)) [ inl e ↦ rw e refl | inr e ↦ rw e refl ]

-- `l2_deinit` leaves the descriptor of the modem in the platform's table. After a start that succeeded
-- on a valid table and `l2_deinit`, the next `l2a_initialize` that gets the same descriptor number
-- from the system fails, since the platform still watches it.
pub l2a_initialize-again :
    (fd : ℤ) (buffer buffer' : Bytes) (size size' : ℕ) (s s' : L2a) (effects : List Effect)
    → IsValid s.watched_fds
    → l2a_initialize (some fd) buffer size s ≡ some (l2a_success, effects, s')
    → l2a_initialize (some fd) buffer' size' (l2_deinit s').1
      ≡ some (
        l2a_connect_err,
        up processing_required ∷ [],
        started_on fd buffer' size' s'.watched_fds s',
      )
l2a_initialize-again fd buffer buffer' size size' s s' effects v start =
    again (l2a_initialize-Initialized fd buffer size s v)
  where
    again :
        Initialized fd buffer size s (l2a_initialize (some fd) buffer size s)
        → l2a_initialize (some fd) buffer' size' (l2_deinit s').1
          ≡ some (
            l2a_connect_err,
            up processing_required ∷ [],
            started_on fd buffer' size' s'.watched_fds s',
          )
    again (not_watching e) = absurd (cc)
    again (watching slots e view w) =
        let table : slots ≡ s'.watched_fds = cc in
        let entry : Mem fd (watched slots) =
          rw (view, map-append) (mem-append.1 (Or.inr (mem-cons.1 (Or.inl refl)))) in
        let no : watch_fd_for_input fd (some downlink_available_callback) slots
            ≡ some (false, slots) =
          Mem-refused fd (some downlink_available_callback) slots entry
            (watch_fd_for_input-Watched fd (some downlink_available_callback) slots w) in
        rw (l2_deinit-same s')
          (l2a_initialize_watched fd buffer' size' s' false s'.watched_fds (rw (table) at no))
