-- ===== src/Platform/FdTable/View.antt =====
-- The array cut at the places where the loops stop, and what the table is for a client.
use schc_work.Common.{
  ℕ, suc, ◌+◌, ◌≡◌, refl, ap, inl, inr, true, false, List, [], ◌∷◌, ◌++◌, length, All, arith,
  Bool-cases,
}
use schc_work.Common.Int.{ℤ, eq_ℤ}
use schc_work.Platform.FdTable.{Slot, is_free, scan, last_used, used}

module _ {ℓ} {Cb : Type ℓ} where
  -- A slot that the first loop passes over on its way to `fd`.
  abbrev pub IsOther : ℤ → Slot Cb → Type 0
  IsOther fd s = (is_free s ≡ false) × (eq_ℤ s.fd fd ≡ false)

  abbrev pub IsUsed : Slot Cb → Type 0
  IsUsed s = is_free s ≡ false

  -- The array ends here, or the next slot is free.
  abbrev pub IsStop : List (Slot Cb) → Type 0
  IsStop [] = Unit {0}
  IsStop (s ∷ slots) = is_free s ≡ true

  -- Where the first loop stops: at the slot of `fd`, or behind the used slots.
  pub data Scanned (fd : ℤ) (slots : List (Slot Cb)) (idx : ℕ) : Type ℓ where
    found :
        (before : List (Slot Cb)) (s : Slot Cb) (after : List (Slot Cb))
        → All (IsOther fd) before
        → is_free s ≡ false
        → eq_ℤ s.fd fd ≡ true
        → slots ≡ before ++ s ∷ after
        → idx ≡ length before
        → Scanned fd slots idx
    missing :
        (before rest : List (Slot Cb))
        → All (IsOther fd) before
        → IsStop rest
        → slots ≡ before ++ rest
        → idx ≡ length before
        → Scanned fd slots idx

  scan_from :
      (fd : ℤ) (slots : List (Slot Cb)) (start : ℕ) → scan fd slots start ≡ start + scan fd slots 0
  unfolding scan
  scan_from fd [] start = omega arith
  scan_from fd (s ∷ slots) start =
      ground (arith, scan_from fd slots (suc start), scan_from fd slots 1)

  pub scan-Scanned : (fd : ℤ) (slots : List (Slot Cb)) → Scanned fd slots (scan fd slots 0)
  unfolding scan
  scan-Scanned fd [] = missing [] [] tt tt refl refl
  scan-Scanned fd (s ∷ slots) = elim (Bool-cases (is_free s)) [
    | inl free ↦ rw free (missing [] (s ∷ slots) tt free refl refl)
    | inr full ↦ elim (Bool-cases (eq_ℤ s.fd fd)) [
      | inl here ↦ rw (full, here) (found [] s slots tt full here refl refl)
      | inr other ↦
          rw (full, other, scan_from fd slots 1) (extend full other (scan-Scanned fd slots))
    ]
  ]
    where
      extend :
          is_free s ≡ false
          → eq_ℤ s.fd fd ≡ false
          → {idx : ℕ} → Scanned fd slots idx
          → Scanned fd (s ∷ slots) (1 + idx)
      extend p q (found before t after all full here e n) =
          found (s ∷ before) t after ((p, q), all) full here (ap (◌∷◌ s) e) (omega arith)
      extend p q (missing before rest all stop e n) =
          missing (s ∷ before) rest ((p, q), all) stop (ap (◌∷◌ s) e) (omega arith)

  -- The used slots behind a position, and where they end.
  pub record UsedRun (slots : List (Slot Cb)) (start last : ℕ) : Type ℓ where
    pub run : List (Slot Cb)
    pub rest : List (Slot Cb)
    pub all_used : All IsUsed run
    pub stops : IsStop rest
    pub cut : slots ≡ run ++ rest
    pub ends : last ≡ start + length run

  pub last_used-UsedRun :
      (slots : List (Slot Cb)) (start : ℕ) → UsedRun slots start (last_used slots start)
  unfolding last_used
  last_used-UsedRun [] start = record {
    run = [];
    rest = [];
    all_used = tt;
    stops = tt;
    cut = refl;
    ends = omega arith;
  }
  last_used-UsedRun (s ∷ slots) start = elim (Bool-cases (is_free s)) [
    | inl free ↦ rw free (record {
      run = [];
      rest = s ∷ slots;
      all_used = tt;
      stops = free;
      cut = refl;
      ends = omega arith;
    })
    | inr full ↦
        let more = last_used-UsedRun slots (suc start) in
        rw full (record {
          run = s ∷ more.run;
          rest = more.rest;
          all_used = (full, more.all_used);
          stops = more.stops;
          cut = ap (◌∷◌ s) more.cut;
          ends = omega (arith, more.ends);
        })
  ]

  pub used-append :
      (before rest : List (Slot Cb))
      → All IsUsed before
      → used (before ++ rest) ≡ before ++ used rest
  unfolding used
  used-append [] rest h = refl
  used-append (s ∷ before) rest h = rw (h.0) (ap (◌∷◌ s) (used-append before rest h.1))

  pub used_stop : (rest : List (Slot Cb)) → IsStop rest → used rest ≡ []
  unfolding used
  used_stop [] h = refl
  used_stop (s ∷ rest) h = rw h

  pub used-All : (slots : List (Slot Cb)) → All IsUsed (used slots)
  unfolding used
  used-All [] = tt
  used-All (s ∷ slots) = ground (arith, used-All slots)

  pub All-IsUsed : (fd : ℤ) (before : List (Slot Cb)) → All (IsOther fd) before → All IsUsed before
  All-IsUsed fd [] h = tt
  All-IsUsed fd (s ∷ before) h = (h.0.0, All-IsUsed fd before h.1)

  -- A list is empty or has a last element.
  pub data Snoc : List (Slot Cb) → Type ℓ where
    empty : Snoc []
    last : (front : List (Slot Cb)) (s : Slot Cb) → Snoc (front ++ s ∷ [])

  pub snoc : (slots : List (Slot Cb)) → Snoc slots
  snoc [] = empty
  snoc (s ∷ slots) = extend (snoc slots)
    where
      extend : {r : List (Slot Cb)} → Snoc r → Snoc (s ∷ r)
      extend empty = last [] s
      extend (last front t) = last (s ∷ front) t
