-- ===== src/Platform/FdTable.antt =====
-- The table of watched file descriptors of platforms/linux/src/platform.c (`_watched_fds`,
-- `watch_fd_for_input`, `unwatch_fd_for_input`) and the poll of `platform_enter_low_power_ll`.
-- `Cb` stands for the function pointers. A result `none` is an access outside of the array.
pub mod View
pub mod Laws
pub mod Unwatch
pub mod Poll
pub mod History
mod Tests
use schc_work.Common.{
  ℕ, zero, suc, ◌+◌, Bool, true, false, ◌&&◌, ◌||◌, not, Option, none, some, List, [], ◌∷◌, ◌++◌,
  map, get_elem?, set, replicate, drop, ltb, ◌==◌, if◌then◌else◌, ◌>>=◌,
}
use schc_work.Common.Int.{ℤ, pos, minus_one, is_neg, eq_ℤ}

abbrev pub max_watched_fds : ℕ
max_watched_fds = 8

-- `cb` is `none` for NULL.
pub record Slot {ℓ} (Cb : Type ℓ) : Type ℓ where
  pub fd : ℤ
  pub cb : Option Cb

-- What `poll` answers: -1 with or without EINTR, 0, or the slots' `revents & POLLIN` in order.
pub data PollResult : Type 0 where
  interrupted failed timed_out : PollResult
  ready : List Bool → PollResult

-- What a call of `platform_enter_low_power_ll` does: it pauses with no descriptor to watch, or
-- polls and calls some callbacks, in order.
pub data Wakeup {ℓ} (Cb : Type ℓ) : Type ℓ where
  paused poll_error idle : Wakeup Cb
  called : List Cb → Wakeup Cb

module _ {ℓ} {Cb : Type ℓ} where
  abbrev pub is_free : Slot Cb → Bool
  is_free s = eq_ℤ s.fd minus_one

  abbrev pub cleared : Slot Cb
  cleared = record { fd = minus_one; cb = none }

  -- `_watched_fds` at the start: -1 in the first slot, zeros in the others.
  abbrev pub initial : List (Slot Cb)
  initial = cleared ∷ replicate 7 (record { fd = pos 0; cb = none })

  -- The first loop of both functions, over the slots from `idx` on: it stops at a free slot, at
  -- the slot of `fd`, or at the end.
  unfoldable pub scan : ℤ → List (Slot Cb) → ℕ → ℕ
  scan fd [] idx = idx
  scan fd (s ∷ slots) idx =
      let next = scan fd slots (suc idx) in if is_free s || eq_ℤ s.fd fd then idx else next

  -- `_watched_fds[i].fd = fd`
  unfoldable pub set_fd : List (Slot Cb) → ℕ → ℤ → List (Slot Cb)
  set_fd [] i fd = []
  set_fd (s ∷ slots) zero fd = record s { fd = fd } ∷ slots
  set_fd (s ∷ slots) (suc i) fd = s ∷ set_fd slots i fd

  unfoldable pub watch_fd_for_input :
      ℤ → Option Cb → List (Slot Cb) → Option (Bool × List (Slot Cb))
  watch_fd_for_input fd callback slots =
      if is_neg fd
      then some (false, slots)
      else let idx = scan fd slots 0 in
        if idx == max_watched_fds then some (false, slots) else do
          found ← get_elem? slots idx
          if eq_ℤ found.fd fd
              then some (false, slots)
              else let stored = set slots idx (record { fd = fd; cb = callback }) in
                some (
                  true,
                  if ltb (suc idx) max_watched_fds
                      then set_fd stored (suc idx) minus_one
                      else stored,
                )

  -- The second loop of `unwatch_fd_for_input`, over the slots behind `last`.
  unfoldable pub last_used : List (Slot Cb) → ℕ → ℕ
  last_used [] last = last
  last_used (s ∷ slots) last =
      let next = last_used slots (suc last) in if is_free s then last else next

  unfoldable pub unwatch_fd_for_input : ℤ → List (Slot Cb) → Option (Bool × List (Slot Cb))
  unwatch_fd_for_input fd slots =
      if is_neg fd
      then some (false, slots)
      else let idx = scan fd slots 0 in
        if idx == max_watched_fds then some (false, slots) else do
          found ← get_elem? slots idx
          if is_free found then some (false, slots) else do
            let last = last_used (drop (suc idx) slots) idx
            moved ← get_elem? slots last
            some (true, set (set slots idx moved) last cleared)

  -- The slots that the loops of `platform_enter_low_power_ll` go through: up to the first free one.
  unfoldable pub used : List (Slot Cb) → List (Slot Cb)
  used [] = []
  used (s ∷ slots) = if is_free s then [] else s ∷ used slots

  -- `if ((fds[i].revents & POLLIN) && _watched_fds[i].cb) _watched_fds[i].cb();`
  unfoldable pub call_one : Option Cb → Bool → List Cb → List Cb
  call_one none event rest = rest
  call_one (some cb) event rest = if event then cb ∷ rest else rest

  unfoldable pub call_ready : List (Slot Cb) → List Bool → List Cb
  call_ready [] events = []
  call_ready (s ∷ slots) [] = []
  call_ready (s ∷ slots) (event ∷ events) = call_one s.cb event (call_ready slots events)

  unfoldable pub after_poll : List (Slot Cb) → PollResult → Wakeup Cb
  after_poll slots interrupted = idle
  after_poll slots failed = poll_error
  after_poll slots timed_out = idle
  after_poll slots (ready events) = called (call_ready slots events)

  -- The watched slots are at hand: pause if there is none, else poll them.
  unfoldable pub wake : (List ℤ → PollResult) → List (Slot Cb) → Wakeup Cb
  unfolding after_poll
  wake poll [] = paused
  wake poll (s ∷ slots) = after_poll (s ∷ slots) (poll (map (λ r. r.fd) (s ∷ slots)))

  -- `poll` is the system's answer for the descriptors handed to it. The callbacks run after the
  -- loop here: those of this program set flags, and do not touch the table.
  unfoldable pub platform_enter_low_power_ll : (List ℤ → PollResult) → List (Slot Cb) → Wakeup Cb
  unfolding wake
  platform_enter_low_power_ll poll slots = wake poll (used slots)
