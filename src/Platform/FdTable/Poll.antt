-- ===== src/Platform/FdTable/Poll.antt =====
-- Which callbacks `platform_enter_low_power_ll` calls.
use mathlib.Core.List.{Mem, Mem-prop, mem-cons, mem-cons_self, not-mem-nil}
use mathlib.Core.Logic.{∥∥₁_elim, ∥∥₁_map, ∥∥₁_prop, ◌∨₁◌, ∨₁_prop, ◌≢◌}
use mathlib.Core.Logic.Or
use schc_work.Common.{
  ℕ, zero, suc, ◌≡◌, refl, sym, ap, ◌↔◌, Bool, true, false, Option, none, some, List, [], ◌∷◌, map,
  get_elem?, arith,
}
use schc_work.Platform.FdTable.{
  Slot, PollResult, ready, paused, called, wake, call_one, call_ready, used,
  platform_enter_low_power_ll,
}
use schc_work.Common.Int.{ℤ}
use schc_work.Platform.FdTable.Laws.{watched}

module _ {ℓ} {Cb : Type ℓ} where
  -- `cb` is the callback of a slot of the list whose event is set.
  abbrev pub IsDue : Cb → List (Slot Cb) → List Bool → Type ℓ
  IsDue cb slots events = ∥ (
      (i : ℕ) × (s : Slot Cb) × (get_elem? slots i ≡ some s)
      × (s.cb ≡ some cb)
      × (get_elem? events i ≡ some true)) ∥₁

  later :
      (cb : Cb) (s : Slot Cb) (slots : List (Slot Cb)) (event : Bool) (events : List Bool)
      → IsDue cb slots events
      → IsDue cb (s ∷ slots) (event ∷ events)
  later cb s slots event events h = ∥∥₁_map h (λ (i, t, a, b, c). (suc i, t, a, b, c))

  mem-call_one :
      (cb : Cb) (c : Option Cb) (event : Bool) (rest : List Cb)
      → Mem cb (call_one c event rest)
      → ((c ≡ some cb) × (event ≡ true)) ∨₁ Mem cb rest
  unfolding call_one
  mem-call_one cb none event rest m = Or.inr m
  mem-call_one cb (some c) true rest m =
      Or.elim ∨₁_prop (mem-cons.0 m) (λ e. Or.inl (ap some (sym e), refl)) (λ h. Or.inr h)
  mem-call_one cb (some c) false rest m = Or.inr m

  call_one-mem :
      (cb : Cb) (c : Option Cb) (event : Bool) (rest : List Cb)
      → Mem cb rest
      → Mem cb (call_one c event rest)
  unfolding call_one
  call_one-mem cb none event rest m = m
  call_one-mem cb (some c) true rest m = mem-cons.1 (Or.inr m)
  call_one-mem cb (some c) false rest m = m

  call_ready-IsDue :
      (cb : Cb) (slots : List (Slot Cb)) (events : List Bool)
      → Mem cb (call_ready slots events)
      → IsDue cb slots events
  unfolding call_ready
  call_ready-IsDue cb [] events m = absurd (not-mem-nil m)
  call_ready-IsDue cb (s ∷ slots) [] m = absurd (not-mem-nil m)
  call_ready-IsDue cb (s ∷ slots) (event ∷ events) m =
      Or.elim ∥∥₁_prop (mem-call_one cb s.cb event _ m) (λ h. ∣ (0, s, refl, h.0, ap some h.1) ∣₁)
        (λ h. later cb s slots event events (call_ready-IsDue cb slots events h))

  IsDue-call_ready :
      (cb : Cb) (slots : List (Slot Cb)) (events : List Bool) (i : ℕ) (s : Slot Cb)
      → get_elem? slots i ≡ some s
      → s.cb ≡ some cb
      → get_elem? events i ≡ some true
      → Mem cb (call_ready slots events)
  unfolding call_ready call_one
  IsDue-call_ready cb [] events i s a b c = absurd (cc)
  IsDue-call_ready cb (t ∷ slots) [] i s a b c = absurd (cc)
  IsDue-call_ready cb (t ∷ slots) (event ∷ events) zero s a b c =
      let due : t.cb ≡ some cb = ground (arith, b) in
      let set : event ≡ true = ground (arith, c) in rw (due, set) (mem-cons_self)
  IsDue-call_ready cb (t ∷ slots) (event ∷ events) (suc i) s a b c =
      call_one-mem cb t.cb event _ (IsDue-call_ready cb slots events i s a b c)

  wake_lem :
      (poll : List ℤ → PollResult) (events : List Bool) (slots : List (Slot Cb))
      → ((map (λ s. s.fd) slots ≡ []) → wake poll slots ≡ paused)
        × (map (λ s. s.fd) slots ≢ []
            → poll (map (λ s. s.fd) slots) ≡ ready events
            → (calls : List Cb) × (wake poll slots ≡ called calls)
              × ((cb : Cb) → Mem cb calls ↔ IsDue cb slots events))
  unfolding wake
  wake_lem poll events [] = ((λ e. refl), (λ ne. absurd (ne refl)))
  wake_lem poll events (s ∷ slots) = (
    (λ e. absurd (cc)),
    (λ ne answer. (
      call_ready (s ∷ slots) events,
      rw answer,
      λ cb. (
        call_ready-IsDue cb (s ∷ slots) events,
        λ h.
            ∥∥₁_elim h Mem-prop
              (λ (i, t, a, b, c). IsDue-call_ready cb (s ∷ slots) events i t a b c),
      ),
    )),
  )

  -- With nothing watched the worker pauses; otherwise `poll` is asked for the watched
  -- descriptors, and when it has events a callback is called exactly if it belongs to a watched
  -- slot whose event is set.
  pub platform_enter_low_power_ll_lem :
      (poll : List ℤ → PollResult) (slots : List (Slot Cb)) (events : List Bool)
      → ((watched slots ≡ []) → platform_enter_low_power_ll poll slots ≡ paused)
        × (watched slots ≢ []
            → poll (watched slots) ≡ ready events
            → (calls : List Cb) × (platform_enter_low_power_ll poll slots ≡ called calls)
              × ((cb : Cb) → Mem cb calls ↔ IsDue cb (used slots) events))
  unfolding platform_enter_low_power_ll
  platform_enter_low_power_ll_lem poll slots events = wake_lem poll events (used slots)
