-- ===== src/Platform/FdTable/History.antt =====
-- Any history of calls on the table from its static initial value.
use mathlib.Core.List.{Nodup-nil}
use schc_work.Common.{◌≡◌, refl, Bool, true, false, Option, some, List, [], ◌∷◌, ◌>>=◌}
use schc_work.Common.Int.{ℤ}
use schc_work.Platform.FdTable.{Slot, initial, used, watch_fd_for_input, unwatch_fd_for_input}
use schc_work.Platform.FdTable.Laws.{IsValid, Watched, stored, refused, watch_fd_for_input-Watched}
use schc_work.Platform.FdTable.Unwatch.{Unwatched, unwatch_fd_for_input-Unwatched}

pub data Call {ℓ} (Cb : Type ℓ) : Type ℓ where
  watch : ℤ → Option Cb → Call Cb
  unwatch : ℤ → Call Cb

module _ {ℓ} {Cb : Type ℓ} where
  pub call : Call Cb → List (Slot Cb) → Option (Bool × List (Slot Cb))
  call (watch fd cb) slots = watch_fd_for_input fd cb slots
  call (unwatch fd) slots = unwatch_fd_for_input fd slots

  pub run : List (Call Cb) → List (Slot Cb) → Option (List (Slot Cb))
  run [] slots = some slots
  run (c ∷ calls) slots = do (done, slots') ← call c slots; run calls slots'

  initial-IsValid : IsValid {Cb = Cb} initial
  unfolding used
  initial-IsValid = record { size = refl; nonneg = tt; distinct = Nodup-nil }

  watch-total :
      (fd : ℤ) (cb : Option Cb) (slots : List (Slot Cb)) {r : Option (Bool × List (Slot Cb))}
      → IsValid slots
      → Watched fd cb slots r
      → (b : Bool) × (slots' : List (Slot Cb)) × (r ≡ some (b, slots')) × IsValid slots'
  watch-total fd cb slots v (stored slots' e view v') = (true, slots', e, v')
  watch-total fd cb slots v (refused e why) = (false, slots, e, v)

  unwatch-total :
      (fd : ℤ) (slots : List (Slot Cb)) {r : Option (Bool × List (Slot Cb))}
      → IsValid slots
      → Unwatched fd slots r
      → (b : Bool) × (slots' : List (Slot Cb)) × (r ≡ some (b, slots')) × IsValid slots'
  unwatch-total fd slots v (Unwatched.removed s slots' e is_fd perm gone v') = (true, slots', e, v')
  unwatch-total fd slots v (Unwatched.refused e why) = (false, slots, e, v)

  call-total :
      (c : Call Cb) (slots : List (Slot Cb))
      → IsValid slots
      → (b : Bool) × (slots' : List (Slot Cb)) × (call c slots ≡ some (b, slots')) × IsValid slots'
  unfolding call
  call-total (watch fd cb) slots v =
      watch-total fd cb slots v (watch_fd_for_input-Watched fd cb slots v)
  call-total (unwatch fd) slots v =
      unwatch-total fd slots v (unwatch_fd_for_input-Unwatched fd slots v)

  run-IsValid :
      (calls : List (Call Cb)) (slots : List (Slot Cb))
      → IsValid slots
      → (slots' : List (Slot Cb)) × (run calls slots ≡ some slots') × IsValid slots'
  unfolding run
  run-IsValid [] slots v = (slots, refl, v)
  run-IsValid (c ∷ calls) slots v =
      let (b, slots', e, v') = call-total c slots v in
      let (slots'', e', v'') = run-IsValid calls slots' v' in (slots'', rw (e) e', v'')

  -- From the static initial table, no sequence of watch and unwatch calls accesses anything outside
  -- of the array, and it leaves a valid table.
  pub run-initial-IsValid :
      (calls : List (Call Cb))
      → (slots' : List (Slot Cb)) × (run calls initial ≡ some slots') × IsValid slots'
  run-initial-IsValid calls = run-IsValid calls initial initial-IsValid
