-- ===== src/Worker/Main/Ending.antt =====
-- The end of the loop of `main`: it is left at the first test that finds a signal.
use schc_work.Common.{
  ◌≡◌, refl, ℕ, zero, suc, ◌+◌, ◌≤◌, ◌<◌, Bool, true, false, Option, none, some, List, [], ◌∷◌,
  ◌++◌, ◌>>=◌, arith,
}
use schc_work.SchcAl.{Options, Effect}
use schc_work.Worker.{Worker, Turn, turn_around, main_loop}
use schc_work.Worker.Main.{Round, main_while}

abbrev Run : Type 0
Run = Option (List Effect × Worker)

-- The first `k` turns from the turn `i` on.
abbrev pub turns : (ℕ → Round) → ℕ → ℕ → List Turn
turns rounds i zero = []
turns rounds i (suc k) = (rounds i).turn ∷ turns rounds (i + 1) k

-- What a run of the turns is for `main_while`.
abbrev pub ending : Bool → Option (List Effect × Worker) → Option (Bool × List Effect × Worker)
ending b run = run >>= λ r. some (b, r.0, r.1)

abbrev then_turn : List Effect × Worker → Run → Run
then_turn r more = more >>= λ r'. some (r.0 ++ r'.0, r'.1)

ending-then :
    (b : Bool) (r : List Effect × Worker) (more : Run)
    → (ending b more >>= λ t. some (t.0, r.0 ++ t.1, t.2)) ≡ ending b (then_turn r more)
ending-then b r none = refl
ending-then b r (some r') = refl

module _ (o : Options) (rounds : ℕ → Round) where
  -- One turn more, before a rest of the loop that is known.
  ending-turn :
      (b : Bool) (fuel i k : ℕ) (first : Run)
      → ((w : Worker)
          → main_while o rounds fuel (i + 1) (rounds (i + 1)).signal w
            ≡ ending b (main_loop o (turns rounds (i + 1) k) w))
      → (first >>= λ r. main_while o rounds fuel (i + 1) (rounds (i + 1)).signal r.1 >>= λ t.
          some (t.0, r.0 ++ t.1, t.2))
        ≡ ending b (first >>= λ r. then_turn r (main_loop o (turns rounds (i + 1) k) r.1))
  ending-turn b fuel i k none rest = refl
  ending-turn b fuel i k (some r) rest =
      rw (rest r.1) (ending-then b r (main_loop o (turns rounds (i + 1) k) r.1))

  abbrev QuietFrom : ℕ → ℕ → Type 0
  QuietFrom i k = (j : ℕ) → i ≤ j → j < i + k → (rounds j).signal ≡ false

  signalled :
      (k fuel i : ℕ) (flag : Bool) (w : Worker)
      → QuietFrom i k
      → ((j : ℕ) → j ≡ i + k → (rounds j).signal ≡ true)
      → k + 1 ≤ fuel
      → (rounds i).signal ≡ flag
      → main_while o rounds fuel i flag w ≡ ending true (main_loop o (turns rounds i k) w)
  unfolding main_while main_loop
  signalled k zero i flag w quiet last enough e = absurd (omega arith)
  signalled zero (suc f) i true w quiet last enough e = refl
  signalled zero (suc f) i false w quiet last enough e = absurd (cc (last i (omega arith)))
  signalled (suc k) (suc f) i true w quiet last enough e =
      absurd (cc (quiet i (omega arith) (omega arith)))
  signalled (suc k) (suc f) i false w quiet last enough e =
      ending-turn true f i k (turn_around o (rounds i).turn w) (λ w'.
        signalled k f (i + 1) (rounds (i + 1)).signal w'
          (λ j l m. quiet j (omega arith) (omega arith)) (λ j e. last j (omega arith)) (omega arith)
          refl)

  unsignalled :
      (k i : ℕ) (flag : Bool) (w : Worker)
      → QuietFrom i k
      → (rounds i).signal ≡ flag
      → main_while o rounds k i flag w ≡ ending false (main_loop o (turns rounds i k) w)
  unfolding main_while main_loop
  unsignalled zero i flag w quiet e = refl
  unsignalled (suc k) i true w quiet e = absurd (cc (quiet i (omega arith) (omega arith)))
  unsignalled (suc k) i false w quiet e =
      ending-turn false k i k (turn_around o (rounds i).turn w) (λ w'.
        unsignalled k (i + 1) (rounds (i + 1)).signal w'
          (λ j l m. quiet j (omega arith) (omega arith)) refl)

  -- If the test before the turn `n` is the first that finds a signal, the loop ends there, and it
  -- has run the turns before, each once and in order; the fuel is enough if it allows for one test
  -- more than `n`. Before that the loop does not end: with fuel for `m` turns it has run these.
  pub main_while-turns :
      (n : ℕ) (w : Worker)
      → ((j : ℕ) → j < n → (rounds j).signal ≡ false)
      → (rounds n).signal ≡ true
      → ((fuel : ℕ)
          → n + 1 ≤ fuel
          → main_while o rounds fuel 0 (rounds 0).signal w
            ≡ ending true (main_loop o (turns rounds 0 n) w))
        × ((m : ℕ)
            → m ≤ n
            → main_while o rounds m 0 (rounds 0).signal w
              ≡ ending false (main_loop o (turns rounds 0 m) w))
  main_while-turns n w quiet last = (
    λ fuel enough.
        signalled n fuel 0 (rounds 0).signal w (λ j _ l. quiet j (omega arith))
          (λ j e. let same : j ≡ n = omega arith in rw same last) enough refl,
    λ m l. unsignalled m 0 (rounds 0).signal w (λ j _ k. quiet j (omega arith)) refl,
  )
