-- ===== src/Platform/FdTable/Laws.antt =====
-- `watch_fd_for_input` and `unwatch_fd_for_input` as operations on the list of watched slots.
use mathlib.Core.List.{
  Mem, Nodup, map-append, perm_append_comm, mem-append, mem-cons, not-mem-nil, Nodup-cons,
  append-nil,
}
use mathlib.Core.List.Perm
use mathlib.Core.Logic.Or
use mathlib.Core.HLevel.{⊥_prop}
use schc_work.Common.{
  suc, ◌<◌, ◌≡◌, refl, sym, ap, ◌∙◌, ◌⊎◌, inl, inr, Bool, true, false, Option, some, List, [], ◌∷◌,
  ◌++◌, map, length, get_elem?, All, arith, Bool-cases, length-append, set-append,
}
use schc_work.Common.Int.{ℤ, pos, negsuc, minus_one, eq_ℤ, is_neg, eq_ℤ_iff}
use schc_work.Platform.FdTable.{
  Slot, is_free, scan, set_fd, used, max_watched_fds, watch_fd_for_input,
}
use schc_work.Platform.FdTable.View.{
  IsOther, IsStop, Scanned, found, missing, scan-Scanned, used-append, used_stop, All-IsUsed,
}

other_sign : (fd : ℤ) → is_neg fd ≡ false → eq_ℤ minus_one fd ≡ false
other_sign (pos n) h = refl
other_sign (negsuc n) h = absurd (cc)

pub nonneg-IsUsed : (fd : ℤ) → is_neg fd ≡ false → eq_ℤ fd minus_one ≡ false
nonneg-IsUsed (pos n) h = refl
nonneg-IsUsed (negsuc n) h = absurd (cc)

module _ {ℓ} {Cb : Type ℓ} where
  -- The descriptors that are watched.
  abbrev pub watched : List (Slot Cb) → List ℤ
  watched slots = map (λ s. s.fd) (used slots)

  -- The array has its eight slots; the watched descriptors are not negative, and distinct.
  pub record IsValid (slots : List (Slot Cb)) : Type ℓ where
    pub size : length slots ≡ max_watched_fds
    pub nonneg : All (λ s. is_neg s.fd ≡ false) (used slots)
    pub distinct : Nodup (watched slots)

  pub get_elem?-append :
      (xs : List (Slot Cb)) (y : Slot Cb) (ys : List (Slot Cb))
      → get_elem? (xs ++ y ∷ ys) (length xs) ≡ some y
  get_elem?-append [] y ys = refl
  get_elem?-append (x ∷ xs) y ys = get_elem?-append xs y ys

  -- The slot behind a new entry becomes the end of the table.
  terminated : List (Slot Cb) → List (Slot Cb)
  terminated [] = []
  terminated (s ∷ slots) = record s { fd = minus_one } ∷ slots

  terminated-IsStop : (slots : List (Slot Cb)) → IsStop (terminated slots)
  unfolding terminated
  terminated-IsStop [] = tt
  terminated-IsStop (s ∷ slots) = refl

  length-terminated : (slots : List (Slot Cb)) → length (terminated slots) ≡ length slots
  unfolding terminated
  length-terminated [] = refl
  length-terminated (s ∷ slots) = refl

  set_fd-append :
      (xs : List (Slot Cb)) (y : Slot Cb) (ys : List (Slot Cb))
      → set_fd (xs ++ y ∷ ys) (suc (length xs)) minus_one ≡ xs ++ y ∷ terminated ys
  unfolding set_fd terminated
  set_fd-append [] y [] = refl
  set_fd-append [] y (z ∷ ys) = refl
  set_fd-append (x ∷ xs) y ys = ap (◌∷◌ x) (set_fd-append xs y ys)

  pub others-not-mem :
      (fd : ℤ) (before : List (Slot Cb))
      → All (IsOther fd) before
      → ¬ Mem fd (map (λ s. s.fd) before)
  others-not-mem fd [] h m = not-mem-nil m
  others-not-mem fd (s ∷ before) h m =
      Or.elim ⊥_prop (mem-cons.0 m) (λ e. cc (h.0.1, (eq_ℤ_iff s.fd fd).1 (sym e)))
        (others-not-mem fd before h.1)

  -- All that `watch_fd_for_input` can do with a descriptor: append it to the watched slots, or
  -- refuse it and leave the array alone because it is negative, or watched already, or the table
  -- is full.
  pub data Watched (fd : ℤ) (cb : Option Cb) (slots : List (Slot Cb))
      (r : Option (Bool × List (Slot Cb))) : Type ℓ where
    stored :
        (slots' : List (Slot Cb))
        → r ≡ some (true, slots')
        → used slots' ≡ used slots ++ record { fd = fd; cb = cb } ∷ []
        → IsValid slots'
        → Watched fd cb slots r
    refused :
        r ≡ some (false, slots)
        → (is_neg fd ≡ true) ⊎ (Mem fd (watched slots)) ⊎ (length (used slots) ≡ max_watched_fds)
        → Watched fd cb slots r

  watch_found :
      (fd : ℤ) (cb : Option Cb) (before : List (Slot Cb)) (s : Slot Cb) (after : List (Slot Cb))
      → is_neg fd ≡ false
      → scan fd (before ++ s ∷ after) 0 ≡ length before
      → length (before ++ s ∷ after) ≡ max_watched_fds
      → eq_ℤ s.fd fd ≡ true
      → watch_fd_for_input fd cb (before ++ s ∷ after) ≡ some (false, before ++ s ∷ after)
  unfolding watch_fd_for_input
  watch_found fd cb before s after nn at size here =
      rw (nn, at)
        (ground (arith, length-append before (s ∷ after), get_elem?-append before s after))

  watch_missing :
      (fd : ℤ) (cb : Option Cb) (before : List (Slot Cb)) (s : Slot Cb) (after : List (Slot Cb))
      → is_neg fd ≡ false
      → scan fd (before ++ s ∷ after) 0 ≡ length before
      → length (before ++ s ∷ after) ≡ max_watched_fds
      → eq_ℤ s.fd fd ≡ false
      → watch_fd_for_input fd cb (before ++ s ∷ after)
        ≡ some (true, before ++ record { fd = fd; cb = cb } ∷ terminated after)
  unfolding watch_fd_for_input
  watch_missing fd cb before s [] nn at size other =
      let new : Slot Cb = record { fd = fd; cb = cb } in
      let at_end : length before ≡ 7 = omega (arith, length-append before (s ∷ [])) in
      rw
        (
          nn,
          at,
          get_elem?-append before s [],
          other,
          set-append before s [] new (length before) refl,
          at_end,
        )
        (unfold terminated in refl)
  watch_missing fd cb before s (t ∷ after) nn at size other =
      let new : Slot Cb = record { fd = fd; cb = cb } in
      let idx = length before in
      let inside : suc idx < 8 = omega (arith, length-append before (s ∷ t ∷ after)) in
      rw
        (
          nn,
          at,
          get_elem?-append before s (t ∷ after),
          set-append before s (t ∷ after) new idx refl,
          set_fd-append before new (t ∷ after),
        )
        (ground (arith, inside))

  pub All-append {κ} :
      (P : Slot Cb → Type κ) (xs ys : List (Slot Cb)) → All P xs → All P ys → All P (xs ++ ys)
  All-append P [] ys h k = k
  All-append P (x ∷ xs) ys h k = (h.0, All-append P xs ys h.1 k)

  used-append_entry :
      (fd : ℤ) (cb : Option Cb) (before after : List (Slot Cb))
      → is_neg fd ≡ false
      → All (IsOther fd) before
      → used (before ++ record { fd = fd; cb = cb } ∷ terminated after)
        ≡ before ++ record { fd = fd; cb = cb } ∷ []
  unfolding used
  used-append_entry fd cb before after nn others = rw (
    used-append before (record { fd = fd; cb = cb } ∷ terminated after)
        (All-IsUsed fd before others),
    nonneg-IsUsed fd nn,
    used_stop (terminated after) (terminated-IsStop after),
  )

  Nodup-append_entry :
      (fd : ℤ) (cb : Option Cb) (before : List (Slot Cb))
      → All (IsOther fd) before
      → Nodup (map (λ s. s.fd) before)
      → Nodup (map (λ s. s.fd) (before ++ record { fd = fd; cb = cb } ∷ []))
  Nodup-append_entry fd cb before others nodup =
      Perm.nodup (Perm.map (λ s. s.fd) (perm_append_comm (record { fd = fd; cb = cb } ∷ []) before))
        (Nodup-cons.1 (others-not-mem fd before others, nodup))

  append-IsValid :
      (fd : ℤ) (cb : Option Cb) (before : List (Slot Cb)) (s : Slot Cb) (after : List (Slot Cb))
      → is_neg fd ≡ false
      → All (IsOther fd) before
      → All (λ s. is_neg s.fd ≡ false) before
      → Nodup (map (λ s. s.fd) before)
      → length (before ++ s ∷ after) ≡ max_watched_fds
      → IsValid (before ++ record { fd = fd; cb = cb } ∷ terminated after)
  append-IsValid fd cb before s after nn others nonneg nodup size =
      let entry : Slot Cb = record { fd = fd; cb = cb } in
      let view = used-append_entry fd cb before after nn others in
      record {
        size = omega (
          arith,
          size,
          length-append before (s ∷ after),
          length-append before (entry ∷ terminated after),
          length-terminated after,
        );
        nonneg =
            rw view (All-append (λ s. is_neg s.fd ≡ false) before (entry ∷ []) nonneg (nn, tt));
        distinct = rw view (Nodup-append_entry fd cb before others nodup);
      }

  -- What is used, by where the scan stops.
  pub used_found :
      (fd : ℤ) (slots before : List (Slot Cb)) (s : Slot Cb) (after : List (Slot Cb))
      → All (IsOther fd) before
      → is_free s ≡ false
      → slots ≡ before ++ s ∷ after
      → used slots ≡ before ++ s ∷ used after
  unfolding used
  used_found fd slots before s after others full e =
      rw (e, used-append before (s ∷ after) (All-IsUsed fd before others), full)

  pub used_whole :
      (fd : ℤ) (slots before : List (Slot Cb))
      → All (IsOther fd) before
      → slots ≡ before
      → used slots ≡ before
  used_whole fd slots before others e = rw e (
      ap used (sym (append-nil before))
      ∙ used-append before [] (All-IsUsed fd before others)
      ∙ rw (used_stop {Cb = Cb} [] tt) (append-nil before))

  pub used_before :
      (fd : ℤ) (slots before : List (Slot Cb)) (s : Slot Cb) (after : List (Slot Cb))
      → All (IsOther fd) before
      → is_free s ≡ true
      → slots ≡ before ++ s ∷ after
      → used slots ≡ before
  used_before fd slots before s after others free e =
      rw
        (
          e,
          used-append before (s ∷ after) (All-IsUsed fd before others),
          used_stop (s ∷ after) free,
        )
        (append-nil before)

  pub registered-Mem :
      (fd : ℤ) (slots before : List (Slot Cb)) (s : Slot Cb) (after : List (Slot Cb))
      → All (IsOther fd) before
      → is_free s ≡ false
      → eq_ℤ s.fd fd ≡ true
      → slots ≡ before ++ s ∷ after
      → Mem fd (watched slots)
  registered-Mem fd slots before s after others full here e =
      rw (used_found fd slots before s after others full e, map-append)
        (mem-append.1 (Or.inr (mem-cons.1 (Or.inl (sym ((eq_ℤ_iff s.fd fd).0 here))))))

  pub free-ne : (s : Slot Cb) (fd : ℤ) → is_free s ≡ true → is_neg fd ≡ false → eq_ℤ s.fd fd ≡ false
  free-ne s fd free nn = rw ((eq_ℤ_iff s.fd minus_one).0 free) (other_sign fd nn)

  watch-Scanned :
      (fd : ℤ) (cb : Option Cb) (slots : List (Slot Cb))
      → is_neg fd ≡ false
      → IsValid slots
      → Scanned fd slots (scan fd slots 0)
      → Watched fd cb slots (watch_fd_for_input fd cb slots)
  watch-Scanned fd cb slots nn v (found before s after others full here e stop) =
      refused (rw e (watch_found fd cb before s after nn (rw e at stop) (rw e at (v.size)) here))
        (inr (inl (registered-Mem fd slots before s after others full here e)))
  watch-Scanned fd cb slots nn v (missing before [] others end e stop) =
      let whole : slots ≡ before = e ∙ append-nil before in
      let all : length before ≡ 8 = omega (arith, v.size, ap length whole) in
      refused (unfold watch_fd_for_input in rw (nn, stop, all))
        (inr (inr (ap length (used_whole fd slots before others whole) ∙ all)))
  watch-Scanned fd cb slots nn v (missing before (s ∷ after) others free e stop) =
      let other : eq_ℤ s.fd fd ≡ false = free-ne s fd free nn in
      let size = rw e at (v.size) in
      let view : used slots ≡ before = used_before fd slots before s after others free e in
      stored (before ++ record { fd = fd; cb = cb } ∷ terminated after)
        (rw e (watch_missing fd cb before s after nn (rw e at stop) size other))
        (rw view (used-append_entry fd cb before after nn others))
        (append-IsValid fd cb before s after nn others (rw view at (v.nonneg))
          (rw view at (v.distinct)) size)

  -- On a valid table `watch_fd_for_input` accesses nothing outside of the array. It appends the
  -- descriptor's entry to the watched ones and leaves a valid table; or it refuses and leaves the
  -- array alone, and then the descriptor is negative, or watched already, or the table is full.
  pub watch_fd_for_input-Watched :
      (fd : ℤ) (cb : Option Cb) (slots : List (Slot Cb))
      → IsValid slots
      → Watched fd cb slots (watch_fd_for_input fd cb slots)
  unfolding watch_fd_for_input
  watch_fd_for_input-Watched fd cb slots v = elim (Bool-cases (is_neg fd)) [
    | inl neg ↦ rw neg (refused refl (inl neg))
    | inr nn ↦ watch-Scanned fd cb slots nn v (scan-Scanned fd slots)
  ]
