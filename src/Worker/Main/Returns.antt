-- ===== src/Worker/Main/Returns.antt =====
-- How `main` ends: the status, by the answers to the set-up, behind a set-up or a loop that ends.
use schc_work.Common.{
  ◌≡◌, refl, ◌⊎◌, inl, inr, ℕ, ◌+◌, ◌≤◌, ◌<◌, Bool, true, false, not, Option, none, some, List, [],
  ◌∷◌, ◌++◌, if◌then◌else◌, ◌>>=◌, map, Ensures, Ensures-eq, Ensures-map,
}
use schc_work.Common.Int.{ℤ, pos, minus_one, is_neg, eq_ℤ}
use schc_work.Platform.FdTable.{Slot, used}
use schc_work.Platform.FdTable.Laws.{IsValid}
use schc_work.Platform.FdTable.Unwatch.{unwatch_fd_for_input-Unwatched}
use schc_work.SchcAl.{Al, Options, Callback, Effect, InitAnswers, schc_al_init, schc_al_terminate}
use schc_work.SchcAl.Lifecycle.{Started, schc_al_init-Started, Unwatched-IsTerminated}
use schc_work.Worker.{Worker, main_loop}
use schc_work.Worker.Device.{SameDevice, main_loop-SameDevice}
use schc_work.Worker.Main.{
  Config, MainEffect, al, Process, MainAnswers, Round, Exit, returned, set_mode, initialized,
  start_al, set_up, terminate, exit_with, after_set_up, after_loop, main, set_up_calls,
  mgt_initialize, net_initialize,
}
use schc_work.Worker.Main.Ending.{turns, ending, main_while-turns}
use schc_work.Worker.Main.Holds.{Holds, nothing, device, set_up-Kept, SameDevice-Holds}

abbrev Returns : {A : Type 0} → Option A → Type 0
Returns {A} r = (a : A) × (r ≡ some a)

init-Returns :
    {o : Options} {answers : InitAnswers} {s : Al} {r : Option (ℤ × List Effect × Al)}
    → Started o answers s r
    → Returns r
init-Returns (Started.no_context on failed e) = (_, e)
init-Returns (Started.already_up context up e) = (_, e)
init-Returns (Started.no_device context d neg e) = (_, e)
init-Returns (Started.gave_up_device context d f why e) = (_, e)
init-Returns (Started.started slots context d f a b c e view w) = (_, e)

>>=-Returns :
    {A B : Type 0} (m : Option A) (f : A → Option B)
    → Returns m
    → ((a : A) → m ≡ some a → Returns (f a))
    → Returns (m >>= f)
>>=-Returns none f (a, e) h = absurd (cc)
>>=-Returns (some a) f r h = h a refl

terminate-Returns :
    (before : List (Slot Callback)) (p : Process) → Holds before p.worker.al → Returns (terminate p)
unfolding terminate schc_al_terminate
terminate-Returns before p (nothing down view v) = rw down (_, refl)
terminate-Returns before p (device up view v) =
    let fd = p.worker.al.tun_fd in
    let done =
      Unwatched-IsTerminated p.worker.al fd (used before) refl up view
        (unwatch_fd_for_input-Unwatched fd p.worker.al.watched_fds v) refl in
    >>=-Returns (schc_al_terminate p.worker.al) _ (_, done.returns) (λ r e. (_, refl))

-- The program is over, with that status.
abbrev pub Exits : ℤ → Option (Exit × List MainEffect × Process) → Type 0
Exits code r = (out : List MainEffect × Process) × (r ≡ some (returned code, out.0, out.1))

exit_with-Exits :
    (before : List (Slot Callback)) (code : ℤ) (calls : List MainEffect) (p : Process)
    → Holds before p.worker.al
    → Exits code (exit_with code calls p)
unfolding exit_with
exit_with-Exits before code calls p h =
    let (r, e) = terminate-Returns before p h in ((calls ++ r.0, r.1), rw e refl)

-- Whether the set-up succeeds, by what it is answered; `init` is the result of `schc_al_init`.
pub data SetUp (answers : MainAnswers) (init : Option (ℤ × List Effect × Al)) : Bool → Type 0 where
  failed :
      (answers.mgt_ok ≡ false)
        ⊎ (answers.net_ok ≡ false)
        ⊎ ((r : ℤ × List Effect × Al) × (init ≡ some r) × (eq_ℤ r.0 (pos 0) ≡ false))
        ⊎ (answers.sigint_ok ≡ false)
        ⊎ (answers.sigterm_ok ≡ false)
      → SetUp answers init false
  succeeded :
      answers.mgt_ok ≡ true
      → answers.net_ok ≡ true
      → (r : ℤ × List Effect × Al) → init ≡ some r
      → eq_ℤ r.0 (pos 0) ≡ true
      → answers.sigint_ok ≡ true
      → answers.sigterm_ok ≡ true
      → SetUp answers init true

-- The set-up returns, with the Boolean that its answers make.
abbrev SetsUp :
    MainAnswers → Option (ℤ × List Effect × Al) → Option (Bool × List MainEffect × Process) → Type 0
SetsUp answers init r =
    (start : Bool × List MainEffect × Process) × (r ≡ some start) × SetUp answers init start.0

not-true : (b : Bool) → not b ≡ true → b ≡ false
not-true true e = absurd (cc)
not-true false e = refl

not-false : (b : Bool) → not b ≡ false → b ≡ true
not-false true e = refl
not-false false e = absurd (cc)

if-SetsUp :
    {answers : MainAnswers} {init : Option (ℤ × List Effect × Al)} (b : Bool)
    (x y : Option (Bool × List MainEffect × Process))
    → (b ≡ true → SetsUp answers init x)
    → (b ≡ false → SetsUp answers init y)
    → SetsUp answers init (if b then x else y)
if-SetsUp true x y h k = h refl
if-SetsUp false x y h k = k refl

module _ (o : Options) (answers : MainAnswers) (v : IsValid answers.watched_fds) where
  start_al-SetsUp :
      (calls : List MainEffect) (p : Process)
      → p.worker.al.watched_fds ≡ answers.watched_fds
      → answers.mgt_ok ≡ true
      → answers.net_ok ≡ true
      → SetsUp answers (schc_al_init o answers.init p.worker.al) (start_al o answers calls p)
  unfolding start_al
  start_al-SetsUp calls p table mgt net =
      let (r, e) = init-Returns (schc_al_init-Started o answers.init p.worker.al (rw table v)) in
      rw e (
        if-SetsUp (not (eq_ℤ r.0 (pos 0))) _ _
          (λ a. (_, refl, failed (inr (inr (inl (r, refl, not-true _ a))))))
          (λ a.
            if-SetsUp (not answers.sigint_ok) _ _
              (λ b. (_, refl, failed (inr (inr (inr (inl (not-true _ b)))))))
              (λ b. (_, refl, last_answer mgt net r (not-false _ a) (not-false _ b) _ refl))))
    where
      last_answer :
          answers.mgt_ok ≡ true
          → answers.net_ok ≡ true
          → (r : ℤ × List Effect × Al) → eq_ℤ r.0 (pos 0) ≡ true
          → answers.sigint_ok ≡ true
          → (d : Bool) → answers.sigterm_ok ≡ d
          → SetUp answers (some r) d
      last_answer mgt net r a b true d = succeeded mgt net r refl a b d
      last_answer mgt net r a b false d = failed (inr (inr (inr (inr d))))

  -- The adaptation layer as `schc_al_init` finds it.
  abbrev pub before_init : Config → Process → Al
  before_init c p = (initialized answers (set_mode c answers p)).worker.al

  set_up-SetsUp :
      (c : Config) (p : Process)
      → SetsUp answers (schc_al_init o answers.init (before_init c p)) (set_up c o answers p)
  unfolding set_up initialized
  set_up-SetsUp c p =
      let p' = initialized answers (set_mode c answers p) in
      let calls = set_up_calls c ++ mgt_initialize ∷ [] in
      let done = calls ++ net_initialize ∷ [] in
      if-SetsUp (not answers.mgt_ok) (some (false, calls, p')) _
        (λ a. (_, refl, failed (inl (not-true _ a))))
        (λ a.
          if-SetsUp (not answers.net_ok) (some (false, done, p')) (start_al o answers done p')
            (λ b. (_, refl, failed (inr (inl (not-true _ b)))))
            (λ b. start_al-SetsUp done p' refl (not-false _ a) (not-false _ b)))

  -- The end of the loop, whose run is known.
  after_loop-Exits :
      (calls : List MainEffect) (p : Process) (run : Option (List Effect × Worker))
      → Ensures (λ (r : List Effect × Worker). Holds answers.watched_fds r.1.al) run
      → Exits (pos 0) (ending true run >>= λ r. after_loop calls p r) ⊎ (run ≡ none)
  unfolding after_loop
  after_loop-Exits calls p none h = inr refl
  after_loop-Exits calls p (some (effects, w)) h = inl (
      exit_with-Exits answers.watched_fds (pos 0) (calls ++ map al effects)
        (record p { worker = w }) (Ensures-eq h refl))

  -- How `main` ends behind a set-up that left `start`, for a result `r`.
  abbrev pub Ends :
      (ℕ → Round)
      → ℕ
      → Bool × List MainEffect × Process
      → Option (Exit × List MainEffect × Process)
      → Type 0
  Ends rounds n start r =
      ((start.0 ≡ false) × Exits minus_one r)
      ⊎ ((start.0 ≡ true)
          × (Exits (pos 0) r ⊎ (main_loop o (turns rounds 0 n) start.2.worker ≡ none)))

  after_set_up-Ends :
      (rounds : ℕ → Round) (n fuel : ℕ)
      → ((j : ℕ) → j < n → (rounds j).signal ≡ false)
      → (rounds n).signal ≡ true
      → n + 1 ≤ fuel
      → (start : Bool × List MainEffect × Process) → Holds answers.watched_fds start.2.worker.al
      → Ends rounds n start (after_set_up o rounds fuel start)
  unfolding after_set_up
  after_set_up-Ends rounds n fuel quiet last enough (false, calls, p) h =
      inl (refl, exit_with-Exits answers.watched_fds minus_one calls p h)
  after_set_up-Ends rounds n fuel quiet last enough (true, calls, p) h =
      let run = main_loop o (turns rounds 0 n) p.worker in
      inr (
        refl,
        rw ((main_while-turns o rounds n p.worker quiet last).0 fuel enough) (
            after_loop-Exits calls p run (
              Ensures-map (λ (r : List Effect × Worker). SameDevice p.worker r.1)
                (λ (r : List Effect × Worker). Holds answers.watched_fds r.1.al)
                (λ r same. SameDevice-Holds answers.watched_fds p.worker r.1 same h)
                (main_loop-SameDevice o (turns rounds 0 n) p.worker))),
      )

  -- If the test before the turn `n` is the first that finds a signal, `main` returns, with fuel for
  -- one test more than `n`. The set-up ends, and succeeds exactly if the SDK, the adaptation layer
  -- and both handlers of signals do. If it fails, `main` returns -1. If it succeeds, `main` returns
  -- 0; the only other case is that one of the turns before `n`, from the worker that the set-up
  -- leaves, accesses memory outside of a buffer. `main` starts without a device, and the table that
  -- the initialization of the SDK leaves is valid.
  pub main-Exits :
      (c : Config) (rounds : ℕ → Round) (n fuel : ℕ) (p : Process)
      → is_neg p.worker.al.tun_fd ≡ true
      → ((j : ℕ) → j < n → (rounds j).signal ≡ false)
      → (rounds n).signal ≡ true
      → n + 1 ≤ fuel
      → (start : Bool × List MainEffect × Process) × (set_up c o answers p ≡ some start)
        × SetUp answers (schc_al_init o answers.init (before_init c p)) start.0
        × Ends rounds n start (main c o answers rounds fuel p)
  unfolding main
  main-Exits c rounds n fuel p down quiet last enough =
      let (start, e, why) = set_up-SetsUp c p in
      let kept = Ensures-eq (set_up-Kept o answers v c p down) e in
      (start, e, why, rw e (after_set_up-Ends rounds n fuel quiet last enough start kept.0))
