-- ===== src/Platform/FdTable/Unwatch.antt =====
-- `unwatch_fd_for_input`: the removed entry's slot is filled by the last one.
use mathlib.Core.List.{
  Mem, Perm, append_assoc, perm_middle, perm_append_comm, Nodup-cons, append-nil,
}
use mathlib.Core.List.Perm
use native.Mathlib.Nat.{add-zero}
use schc_work.Common.{
  ℕ, suc, ◌+◌, ◌≡◌, refl, sym, ap, ◌∙◌, ◌⊎◌, inl, inr, Bool, true, false, Option, some, List, [],
  ◌∷◌, ◌++◌, length, get_elem?, set, drop, All, arith, Bool-cases, ◌==◌, ◌>>=◌, length-append,
  set-append,
}
use schc_work.Common.Int.{ℤ, eq_ℤ, is_neg, eq_ℤ_iff}
use schc_work.Platform.FdTable.{
  Slot, is_free, cleared, scan, last_used, used, max_watched_fds, unwatch_fd_for_input,
}
use schc_work.Platform.FdTable.View.{
  IsOther, IsUsed, Scanned, found, missing, scan-Scanned, last_used-UsedRun, used-append, used_stop,
  All-IsUsed, Snoc, empty, last, snoc,
}
use schc_work.Platform.FdTable.Laws.{
  watched, IsValid, get_elem?-append, others-not-mem, used_found, used_whole, used_before,
  All-append,
}

module _ {ℓ} {Cb : Type ℓ} where
  -- All that `unwatch_fd_for_input` can do: take out the entry of the descriptor and keep the
  -- others, in some order; or refuse and leave the array alone because the descriptor is negative
  -- or not watched.
  pub data Unwatched (fd : ℤ) (slots : List (Slot Cb)) (r : Option (Bool × List (Slot Cb)))
      : Type ℓ where
    removed :
        (s : Slot Cb) (slots' : List (Slot Cb))
        → r ≡ some (true, slots')
        → s.fd ≡ fd
        → Perm (used slots) (s ∷ used slots')
        → ¬ Mem fd (watched slots')
        → IsValid slots'
        → Unwatched fd slots r
    refused :
        r ≡ some (false, slots)
        → (is_neg fd ≡ true) ⊎ (¬ Mem fd (watched slots))
        → Unwatched fd slots r

  drop-append :
      (before : List (Slot Cb)) (s : Slot Cb) (after : List (Slot Cb))
      → drop (suc (length before)) (before ++ s ∷ after) ≡ after
  drop-append [] s after = refl
  drop-append (t ∷ before) s after = drop-append before s after

  -- What is done once the slot `s` of the descriptor is found.
  unwatch_found :
      (fd : ℤ) (before : List (Slot Cb)) (s : Slot Cb) (after : List (Slot Cb))
      → is_neg fd ≡ false
      → scan fd (before ++ s ∷ after) 0 ≡ length before
      → length (before ++ s ∷ after) ≡ max_watched_fds
      → is_free s ≡ false
      → unwatch_fd_for_input fd (before ++ s ∷ after) ≡ (do
        moved ← get_elem? (before ++ s ∷ after) (last_used after (length before))
        some (
          true,
          set
              (set (before ++ s ∷ after) (length before) moved)
              (last_used after (length before))
              cleared,
        ))
  unfolding unwatch_fd_for_input
  unwatch_found fd before s after nn stop size full =
      let inside : (length before == 8) ≡ false =
        ground (arith, length-append before (s ∷ after)) in
      rw (nn, stop, inside, get_elem?-append before s after, full, drop-append before s after)

  -- Filling the hole of `s` by the last used slot `y`.
  fill :
      (before front rest : List (Slot Cb)) (s y : Slot Cb) (n : ℕ)
      → n ≡ length before + length (front ++ y ∷ [])
      → let slots = before ++ s ∷ (front ++ y ∷ rest) in
        (get_elem? slots n ≡ some y)
        × (set (set slots (length before) y) n cleared ≡ before ++ y ∷ (front ++ cleared ∷ rest))
  fill before front rest s y n e =
      let place : (t : Slot Cb) → n ≡ length (before ++ t ∷ front) =
        λ t. omega (arith, length-append before (t ∷ front), length-append front (y ∷ [])) in
      let regroup : (t u : Slot Cb)
          → before ++ t ∷ (front ++ u ∷ rest) ≡ (before ++ t ∷ front) ++ u ∷ rest =
        λ t u. sym (append_assoc before (t ∷ front) (u ∷ rest)) in
      (
        rw (regroup s y, place s) (get_elem?-append (before ++ s ∷ front) y rest),
        rw (set-append before s (front ++ y ∷ rest) y (length before) refl, regroup y y)
            (set-append (before ++ y ∷ front) y rest cleared n (place y) ∙ sym (regroup y cleared)),
      )

  -- The entry `s` is gone from the watched slots, and no other.
  removed-IsValid :
      (slots slots' : List (Slot Cb)) (s : Slot Cb)
      → IsValid slots
      → length slots' ≡ max_watched_fds
      → All (λ t. is_neg t.fd ≡ false) (used slots')
      → Perm (used slots) (s ∷ used slots')
      → (¬ Mem s.fd (watched slots')) × IsValid slots'
  removed-IsValid slots slots' s v size nonneg perm =
      let split = Nodup-cons.0 (Perm.nodup (Perm.map (λ t. t.fd) perm) v.distinct) in
      (split.0, record { size = size; nonneg = nonneg; distinct = split.1 })

  All-split {κ} :
      (P : Slot Cb → Type κ) (xs ys : List (Slot Cb)) → All P (xs ++ ys) → All P xs × All P ys
  All-split P [] ys h = (tt, h)
  All-split P (x ∷ xs) ys h = let (a, b) = All-split P xs ys h.1 in ((h.0, a), b)

  module _ (fd : ℤ) (before : List (Slot Cb)) (s : Slot Cb) (rest : List (Slot Cb))
      (nn : is_neg fd ≡ false) (others : All (IsOther fd) before) (full : is_free s ≡ false)
      (here : eq_ℤ s.fd fd ≡ true) (stops : used rest ≡ []) where
    used_cut :
        (mid : List (Slot Cb))
        → All IsUsed mid
        → used (before ++ s ∷ (mid ++ rest)) ≡ before ++ s ∷ mid
    used_cut mid mid_used =
        used_found fd _ before s (mid ++ rest) others full refl
        ∙ ap (λ t. before ++ s ∷ t) (used-append mid rest mid_used ∙ rw stops (append-nil mid))

    used_ended : (xs tail : List (Slot Cb)) → All IsUsed xs → used (xs ++ cleared ∷ tail) ≡ xs
    used_ended xs tail h =
        used-append xs (cleared ∷ tail) h
        ∙ rw (used_stop {Cb = Cb} (cleared ∷ tail) refl) (append-nil xs)

    conclude :
        (mid kept slots' : List (Slot Cb))
        → All IsUsed mid
        → IsValid (before ++ s ∷ (mid ++ rest))
        → unwatch_fd_for_input fd (before ++ s ∷ (mid ++ rest)) ≡ some (true, slots')
        → used slots' ≡ before ++ kept
        → Perm mid kept
        → All (λ t. is_neg t.fd ≡ false) kept
        → length slots' ≡ max_watched_fds
        → Unwatched fd
            (before ++ s ∷ (mid ++ rest))
            (unwatch_fd_for_input fd (before ++ s ∷ (mid ++ rest)))
    conclude mid kept slots' mid_used v eq view' same nonneg size =
        let view = used_cut mid mid_used in
        let perm : Perm (used (before ++ s ∷ (mid ++ rest))) (s ∷ used slots') =
          rw (view, view')
            (Perm.trans (perm_middle before mid) (Perm.cons s (Perm.append_left before same))) in
        let P = λ (t : Slot Cb). is_neg t.fd ≡ false in
        let front_nonneg = (All-split P before (s ∷ mid) (rw view at (v.nonneg))).0 in
        let sound =
          removed-IsValid (before ++ s ∷ (mid ++ rest)) slots' s v size
            (rw view' (All-append P before kept front_nonneg nonneg)) perm in
        let is_fd : s.fd ≡ fd = (eq_ℤ_iff s.fd fd).0 here in
        removed s slots' eq is_fd perm (rw is_fd at (sound.0)) sound.1

    nonneg_part :
        (mid : List (Slot Cb))
        → All IsUsed mid
        → IsValid (before ++ s ∷ (mid ++ rest))
        → All (λ t. is_neg t.fd ≡ false) mid
    nonneg_part mid mid_used v =
        (All-split (λ t. is_neg t.fd ≡ false) before (s ∷ mid)
          (rw (used_cut mid mid_used) at (v.nonneg))).1.1

    unwatch_only :
        last_used rest (length before) ≡ length before
        → scan fd (before ++ s ∷ rest) 0 ≡ length before
        → IsValid (before ++ s ∷ rest)
        → Unwatched fd (before ++ s ∷ rest) (unwatch_fd_for_input fd (before ++ s ∷ rest))
    unwatch_only is_last stop v =
        let n = length before in
        conclude [] [] (before ++ cleared ∷ rest) tt v
          (unwatch_found fd before s rest nn stop v.size full
            ∙ rw (
              is_last,
              get_elem?-append before s rest,
              set-append before s rest s n refl,
              set-append before s rest cleared n refl,
            ))
          (used_ended before rest (All-IsUsed fd before others) ∙ sym (append-nil before)) Perm.nil
          tt
          (omega
            (arith, v.size, length-append before (s ∷ rest), length-append before (cleared ∷ rest)))

    unwatch_moved :
        (front : List (Slot Cb)) (y : Slot Cb) (n : ℕ)
        → All IsUsed (front ++ y ∷ [])
        → n ≡ length before + length (front ++ y ∷ [])
        → n ≡ last_used ((front ++ y ∷ []) ++ rest) (length before)
        → scan fd (before ++ s ∷ ((front ++ y ∷ []) ++ rest)) 0 ≡ length before
        → IsValid (before ++ s ∷ ((front ++ y ∷ []) ++ rest))
        → Unwatched fd
            (before ++ s ∷ ((front ++ y ∷ []) ++ rest))
            (unwatch_fd_for_input fd (before ++ s ∷ ((front ++ y ∷ []) ++ rest)))
    unwatch_moved front y n mid_used at_n is_last stop v =
        let mid = front ++ y ∷ [] in
        let slots' = before ++ y ∷ (front ++ cleared ∷ rest) in
        let joined : mid ++ rest ≡ front ++ y ∷ rest = append_assoc front (y ∷ []) rest in
        let (reads, writes) = fill before front rest s y n at_n in
        let parts = All-split IsUsed front (y ∷ []) mid_used in
        let P = λ (t : Slot Cb). is_neg t.fd ≡ false in
        let nonneg = All-split P front (y ∷ []) (nonneg_part mid mid_used v) in
        let kept_used =
          All-append IsUsed before (y ∷ front) (All-IsUsed fd before others) (parts.1.0, parts.0) in
        conclude mid (y ∷ front) slots' mid_used v
          (unwatch_found fd before s (mid ++ rest) nn stop v.size full
            ∙ rw (← is_last, joined, reads, writes))
          (ap used (sym (append_assoc before (y ∷ front) (cleared ∷ rest)))
            ∙ used_ended (before ++ y ∷ front) rest kept_used)
          (perm_append_comm front (y ∷ [])) (nonneg.1.0, nonneg.0)
          (omega (
            arith,
            v.size,
            ap length joined,
            length-append before (s ∷ (mid ++ rest)),
            length-append before (y ∷ (front ++ cleared ∷ rest)),
            length-append front (y ∷ rest),
            length-append front (cleared ∷ rest),
          ))

    unwatch_cut :
        {mid : List (Slot Cb)} (n : ℕ)
        → Snoc mid
        → All IsUsed mid
        → n ≡ length before + length mid
        → n ≡ last_used (mid ++ rest) (length before)
        → scan fd (before ++ s ∷ (mid ++ rest)) 0 ≡ length before
        → IsValid (before ++ s ∷ (mid ++ rest))
        → Unwatched fd
            (before ++ s ∷ (mid ++ rest))
            (unwatch_fd_for_input fd (before ++ s ∷ (mid ++ rest)))
    unwatch_cut n empty mid_used at_n is_last stop v =
        unwatch_only (sym is_last ∙ at_n ∙ add-zero (length before)) stop v
    unwatch_cut n (last front y) mid_used at_n is_last stop v =
        unwatch_moved front y n mid_used at_n is_last stop v

  unwatch-Scanned :
      (fd : ℤ) (slots : List (Slot Cb))
      → is_neg fd ≡ false
      → IsValid slots
      → Scanned fd slots (scan fd slots 0)
      → Unwatched fd slots (unwatch_fd_for_input fd slots)
  unfolding unwatch_fd_for_input
  unwatch-Scanned fd slots nn v (found before s after others full here e stop) =
      let after_run = last_used-UsedRun after (length before) in
      let cut : slots ≡ before ++ s ∷ (after_run.run ++ after_run.rest) =
        e ∙ ap (λ t. before ++ s ∷ t) after_run.cut in
      rw cut (
        unwatch_cut fd before s after_run.rest nn others full here
          (used_stop after_run.rest after_run.stops) (last_used after (length before))
          (snoc after_run.run) after_run.all_used after_run.ends
          (ap (λ t. last_used t (length before)) after_run.cut) (rw cut at stop) (rw cut at v))
  unwatch-Scanned fd slots nn v (missing before [] others end e stop) =
      let whole : slots ≡ before = e ∙ append-nil before in
      let all : length before ≡ 8 = omega (arith, v.size, ap length whole) in
      refused (rw (nn, stop, all))
        (inr (rw (used_whole fd slots before others whole) (others-not-mem fd before others)))
  unwatch-Scanned fd slots nn v (missing before (s ∷ after) others free e stop) =
      let inside : (length before == 8) ≡ false =
        ground (arith, ap length e, v.size, length-append before (s ∷ after)) in
      let at_free : get_elem? slots (length before) ≡ some s =
        rw e (get_elem?-append before s after) in
      refused (rw (nn, stop, inside, at_free, free)) (
        inr (
          rw (used_before fd slots before s after others free e) (others-not-mem fd before others)))

  -- On a valid table `unwatch_fd_for_input` accesses nothing outside of the array. It takes out the
  -- descriptor's entry, keeps the other watched ones in some order, and leaves a valid table that
  -- does not watch the descriptor; or it refuses and leaves the array alone, and then the
  -- descriptor is negative or not watched.
  pub unwatch_fd_for_input-Unwatched :
      (fd : ℤ) (slots : List (Slot Cb))
      → IsValid slots
      → Unwatched fd slots (unwatch_fd_for_input fd slots)
  unfolding unwatch_fd_for_input
  unwatch_fd_for_input-Unwatched fd slots v = elim (Bool-cases (is_neg fd)) [
    | inl neg ↦ rw neg (refused refl (inl neg))
    | inr nn ↦ unwatch-Scanned fd slots nn v (scan-Scanned fd slots)
  ]
