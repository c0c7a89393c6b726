-- ===== src/Platform/Clock/Laws.antt =====
-- The elapsed time, and the timers that are deleted at the exit.
use mathlib.Core.List.{append_assoc, append-nil}
use schc_work.Common.{
  ◌≡◌, refl, sym, ap, ◌∙◌, ◌⊎◌, inl, inr, ℕ, zero, suc, ◌+◌, ◌-◌, ◌*◌, ◌^◌, ◌≤◌, ◌<◌, false, List,
  [], ◌∷◌, ◌++◌, length, take, leb, ◌==◌, arith, Bool-cases, length-append,
}
use schc_work.Common.Slices.{take-append}
use schc_work.Platform.Clock.{
  Timeval, timer_get_current_time, platform_get_current_time, platform_get_elpased_time, Cleaner,
  no_timers, append_timer, timer_cleaner_register, timer_cleaner, register_all,
}

-- Microseconds since the epoch.
abbrev pub micros : Timeval → ℕ
micros t = t.tv_sec * 1000000 + t.tv_usec

-- For a moment that `platform_get_current_time` returned and a later one, with less than 2 ^ 32 ms
-- minus one between them: the elapsed time is right to the millisecond, also where the 32-bit clock
-- has come back to 0 in between. The clock is not set back, and its microseconds are below one
-- million.
pub platform_get_elpased_time_lem :
    (past now : Timeval)
    → past.tv_usec < 1000000
    → now.tv_usec < 1000000
    → micros past ≤ micros now
    → micros now < micros past + (2 ^ 32 - 1) * 1000
    → (micros now
        < micros past
          + platform_get_elpased_time now (platform_get_current_time past) * 1000
          + 1000)
      × (micros past + platform_get_elpased_time now (platform_get_current_time past) * 1000
          < micros now + 1000)
unfolding platform_get_elpased_time platform_get_current_time timer_get_current_time
platform_get_elpased_time_lem past now a b c d = (omega arith, omega arith)

take-append_full : {T : Type 0} (n : ℕ) (xs ys : List T) → length xs ≡ n → take n (xs ++ ys) ≡ xs
take-append_full n xs ys e = rw (sym e) (take-append xs ys)

take_short : {T : Type 0} (n : ℕ) (xs : List T) → length xs ≤ n → take n xs ≡ xs
take_short zero [] h = refl
take_short zero (x ∷ xs) h = absurd (omega arith)
take_short (suc n) [] h = refl
take_short (suc n) (x ∷ xs) h = ap (◌∷◌ x) (take_short n xs (omega arith))

module _ {T : Type 0} where
  abbrev holding : Cleaner T → List T → Cleaner T
  holding c timers = record c { timers = timers }

  -- A registration, where there has been one before.
  registered :
      (t : T) (c : Cleaner T)
      → 0 < length c.timers
      → ((length c.timers < 32)
          × (timer_cleaner_register t c ≡ record c { timers = c.timers ++ t ∷ [] }))
        ⊎ ((32 ≤ length c.timers) × (timer_cleaner_register t c ≡ c))
  unfolding timer_cleaner_register append_timer
  registered t c some_timer =
      let later : (length c.timers == 0) ≡ false = ground arith in
      elim (Bool-cases (leb 32 (length c.timers))) [
        | inl full ↦ inr (ground arith, rw (later, full) refl)
        | inr room ↦ inl (ground arith, rw (later, room) refl)
      ]

  register_all-take :
      (ts : List T) (c : Cleaner T)
      → 0 < length c.timers
      → length c.timers ≤ 32
      → register_all ts c ≡ record c { timers = take 32 (c.timers ++ ts) }
  unfolding register_all
  register_all-take [] c some_timer fits =
      ap (holding c) (sym (ap (take 32) (append-nil c.timers) ∙ take_short 32 c.timers fits))
  register_all-take (t ∷ ts) c some_timer fits = elim (registered t c some_timer) [
    | inl (room, e) ↦
        ap (register_all ts) e
        ∙ (register_all-take ts (holding c (c.timers ++ t ∷ []))
              (omega (arith, length-append c.timers (t ∷ [])))
              (omega (arith, length-append c.timers (t ∷ [])))
            ∙ ap (λ xs. holding c (take 32 xs)) (append_assoc c.timers (t ∷ []) ts))
    | inr (full, e) ↦
        let whole : length c.timers ≡ 32 = omega arith in
        ap (register_all ts) e
        ∙ (register_all-take ts c some_timer fits
            ∙ ap (holding c) (
                take-append_full 32 c.timers ts whole
                ∙ sym (take-append_full 32 c.timers (t ∷ ts) whole)))
  ]

  -- Whichever timers are created, and in whatever number, the first 32 of them are deleted when the
  -- program exits, each once.
  pub timer_cleaner-register_all :
      (ts : List T)
      → timer_cleaner (register_all ts no_timers).registrations (register_all ts no_timers)
        ≡ take 32 ts
  unfolding timer_cleaner register_all timer_cleaner_register append_timer
  timer_cleaner-register_all [] = refl
  timer_cleaner-register_all (t ∷ ts) =
      let first : Cleaner T = record { timers = t ∷ []; registrations = 1 } in
      let e = register_all-take ts first (omega arith) (omega arith) in
      ap (λ (c : Cleaner T). timer_cleaner c.registrations c) e ∙ append-nil _
