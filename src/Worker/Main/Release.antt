-- ===== src/Worker/Main/Release.antt =====
-- What `main` leaves when it returns: the TUN device, the modem, the events and the table.
use mathlib.Core.List.{Perm, append-nil}
use mathlib.Core.List.Perm
use schc_work.Common.{
  ◌≡◌, refl, ℕ, Bool, true, false, some, List, [], ◌∷◌, ◌++◌, if◌then◌else◌, map, Ensures,
  Ensures-map, result, Ensures->>=, Ensures-eq, zero, suc, ◌+◌,
}
use schc_work.Common.Int.{ℤ, pos, minus_one, is_neg}
use schc_work.Platform.FdTable.{Slot, used}
use schc_work.Platform.FdTable.Laws.{IsValid}
use schc_work.Platform.FdTable.Unwatch.{unwatch_fd_for_input-Unwatched}
use schc_work.SchcAl.{closed, Al, Options, Callback, Effect, schc_al_terminate}
use schc_work.SchcAl.Lifecycle.{IsTerminated, Unwatched-IsTerminated}
use schc_work.Worker.{Worker, turn_around}
use schc_work.Worker.Device.{same, SameDevice-trans, SameDevice, turn_around-SameDevice}
use schc_work.Worker.Main.{
  Config, MainEffect, al, ahoi_disconnected, Process, MainAnswers, Round, Exit, still_running,
  returned, set_up, terminate, main_while, exit_with, after_loop, after_set_up, main,
}
use schc_work.Worker.Main.Holds.{Holds, nothing, device, SameDevice-Holds, set_up-Kept}

-- The last effects of a program that holds the TUN device `tun` and the modem `modem`, each if it is
-- open.
abbrev pub release : ℤ → ℤ → List MainEffect
release tun modem =
    (if is_neg tun then [] else al (closed tun) ∷ [])
    ++ (if is_neg modem then [] else ahoi_disconnected modem ∷ [])

-- The worker has let go of everything. Behind the effects `earlier` the device `tun` is closed and
-- the modem is disconnected, and nothing else happens; no device is held, no event is left, and the
-- platform watches the descriptors of `before`.
pub record IsReleased (before : List (Slot Callback)) (modem tun : ℤ)
    (earlier effects : List MainEffect) (s : Al) : Type 0 where
  pub let_go : effects ≡ earlier ++ release tun modem
  pub released : is_neg s.tun_fd ≡ true
  pub quiet :
      (s.processing_required ≡ false)
      × (s.connectivity_available ≡ false)
      × (s.ip_packet_available ≡ false)
      × (s.ongoing_transmission ≡ false)
  pub unwatched : Perm (used before) (used s.watched_fds)
  pub sound : IsValid s.watched_fds

-- What ran between the set-up and the end: nothing if the set-up failed, else the loop.
pub data Ran (o : Options) (rounds : ℕ → Round) (fuel : ℕ)
    (start : Bool × List MainEffect × Process) : List MainEffect → Type 0 where
  not_reached : start.0 ≡ false → Ran o rounds fuel start []
  looped :
      (effects : List Effect) (w : Worker)
      → start.0 ≡ true
      → main_while o rounds fuel 0 (rounds 0).signal start.2.worker ≡ some (true, effects, w)
      → Ran o rounds fuel start (map al effects)

-- A process after `terminate`, which was reached with `calls` made and the device `tun`.
abbrev Left : List (Slot Callback) → ℤ → ℤ → List MainEffect → List MainEffect × Process → Type 0
Left before modem tun calls r = IsReleased before modem tun calls (calls ++ r.0) r.1.worker.al

IsTerminated-Left :
    (before : List (Slot Callback)) (calls : List MainEffect) (p : Process)
    → is_neg p.worker.al.tun_fd ≡ false
    → IsTerminated p.worker.al.tun_fd (used before) (schc_al_terminate p.worker.al)
    → Ensures (Left before p.ahoifd p.worker.al.tun_fd calls) (terminate p)
unfolding terminate
IsTerminated-Left before calls p up t = rw t.returns (
    result _ (record {
      let_go = rw up refl;
      released = rw t.released refl;
      quiet = t.quiet;
      unwatched = t.unwatched;
      sound = t.sound;
    }))

terminate-Left :
    (before : List (Slot Callback)) (calls : List MainEffect) (p : Process)
    → Holds before p.worker.al
    → Ensures (Left before p.ahoifd p.worker.al.tun_fd calls) (terminate p)
unfolding terminate schc_al_terminate
terminate-Left before calls p (nothing down view v) = rw down (
    result _ (record {
      let_go = rw down refl;
      released = down;
      quiet = (refl, refl, refl, refl);
      unwatched = rw view (Perm.refl (used before));
      sound = v;
    }))
terminate-Left before calls p (device up view v) =
    let fd = p.worker.al.tun_fd in
    IsTerminated-Left before calls p up (
      Unwatched-IsTerminated p.worker.al fd (used before) refl up view
        (unwatch_fd_for_input-Unwatched fd p.worker.al.watched_fds v) refl)

pub main_while-SameDevice :
    (o : Options) (rounds : ℕ → Round) (fuel i : ℕ) (flag : Bool) (w : Worker)
    → Ensures
        (λ (r : Bool × List Effect × Worker). SameDevice w r.2)
        (main_while o rounds fuel i flag w)
unfolding main_while
main_while-SameDevice o rounds zero i flag w = result _ (same w)
main_while-SameDevice o rounds (suc fuel) i true w = result _ (same w)
main_while-SameDevice o rounds (suc fuel) i false w =
    Ensures->>= (turn_around o (rounds i).turn w) _ λ out e.
      Ensures->>= (main_while o rounds fuel (i + 1) (rounds (i + 1)).signal out.1) _ λ more e'.
        result _ (
          SameDevice-trans (Ensures-eq (turn_around-SameDevice o (rounds i).turn w) e) (
            Ensures-eq (main_while-SameDevice o rounds fuel (i + 1) (rounds (i + 1)).signal out.1)
              e'))

-- What a run of `main` leaves, once it returns, behind a set-up that left `start`.
abbrev pub Leaves :
    List (Slot Callback)
    → Options
    → (ℕ → Round)
    → ℕ
    → Bool × List MainEffect × Process
    → Exit × List MainEffect × Process
    → Type 0
Leaves before o rounds fuel start (still_running, effects, p) = Unit {0}
Leaves before o rounds fuel start (returned code, effects, p) =
    (ran : List MainEffect) × Ran o rounds fuel start ran
    × IsReleased before start.2.ahoifd start.2.worker.al.tun_fd (start.1 ++ ran) effects p.worker.al

module _ (before : List (Slot Callback)) (o : Options) (rounds : ℕ → Round) (fuel : ℕ)
    (start : Bool × List MainEffect × Process) (holds : Holds before start.2.worker.al) where
  exit_with-Leaves :
      (code : ℤ) (ran : List MainEffect) (p : Process)
      → Ran o rounds fuel start ran
      → Holds before p.worker.al
      → p.ahoifd ≡ start.2.ahoifd
      → p.worker.al.tun_fd ≡ start.2.worker.al.tun_fd
      → Ensures (Leaves before o rounds fuel start) (exit_with code (start.1 ++ ran) p)
  unfolding exit_with
  exit_with-Leaves code ran p r h modem tun = Ensures->>= (terminate p) _ λ out e.
      let left = Ensures-eq (terminate-Left before (start.1 ++ ran) p h) e in
      result _ (ran, r, rw (modem, tun) at left)

  after_loop-Leaves :
      (r : Bool × List Effect × Worker)
      → start.0 ≡ true
      → main_while o rounds fuel 0 (rounds 0).signal start.2.worker ≡ some r
      → Ensures (Leaves before o rounds fuel start) (after_loop start.1 start.2 r)
  unfolding after_loop
  after_loop-Leaves (false, effects, w) reached e = result _ tt
  after_loop-Leaves (true, effects, w) reached e =
      let same =
        Ensures-eq (main_while-SameDevice o rounds fuel 0 (rounds 0).signal start.2.worker) e in
      exit_with-Leaves (pos 0) (map al effects) (record start.2 { worker = w })
        (looped effects w reached e) (SameDevice-Holds before start.2.worker w same holds) refl
        same.device

after_set_up-Leaves :
    (before : List (Slot Callback)) (o : Options) (rounds : ℕ → Round) (fuel : ℕ)
    (start : Bool × List MainEffect × Process)
    → Holds before start.2.worker.al
    → Ensures (Leaves before o rounds fuel start) (after_set_up o rounds fuel start)
unfolding after_set_up
after_set_up-Leaves before o rounds fuel (false, calls, p) h = rw (append-nil calls) at (
    exit_with-Leaves before o rounds fuel (false, calls, p) h minus_one [] p (not_reached refl) h
      refl refl)
after_set_up-Leaves before o rounds fuel (true, calls, p) h =
    Ensures->>= (main_while o rounds fuel 0 (rounds 0).signal p.worker) _
      λ r e. after_loop-Leaves before o rounds fuel (true, calls, p) h r refl e

module _ (o : Options) (answers : MainAnswers) (v : IsValid answers.watched_fds) where
  abbrev Released : Config → (ℕ → Round) → ℕ → Process → Exit × List MainEffect × Process → Type 0
  Released c rounds fuel p (still_running, effects, p') = Unit {0}
  Released c rounds fuel p (returned code, effects, p') =
      (start : Bool × List MainEffect × Process) × (ran : List MainEffect) × (set_up c o answers p
        ≡ some start)
      × Ran o rounds fuel start ran
      × IsReleased answers.watched_fds answers.modem start.2.worker.al.tun_fd (start.1 ++ ran)
          effects p'.worker.al

  Leaves-Released :
      (c : Config) (rounds : ℕ → Round) (fuel : ℕ) (p : Process)
      (start : Bool × List MainEffect × Process)
      → set_up c o answers p ≡ some start
      → start.2.ahoifd ≡ answers.modem
      → (r : Exit × List MainEffect × Process) → Leaves answers.watched_fds o rounds fuel start r
      → Released c rounds fuel p r
  Leaves-Released c rounds fuel p start e modem (still_running, effects, p') l = tt
  Leaves-Released c rounds fuel p start e modem (returned code, effects, p') l =
      (start, l.0, e, l.1, rw modem at l.2)

  -- Whenever `main` returns, after a set-up that failed or after the loop, it has let go of
  -- everything. Its last effects, behind those of the set-up and of the loop, close the TUN device
  -- that the set-up left open, if it left one, and then disconnect the modem, if one was opened. No
  -- device is held then, no event is left, and the platform watches the descriptors that it watched
  -- once the SDK was initialized, in some order. `main` starts without a device, and that table is
  -- valid.
  pub main-IsReleased :
      (c : Config) (rounds : ℕ → Round) (fuel : ℕ) (p : Process)
      → is_neg p.worker.al.tun_fd ≡ true
      → {code : ℤ} {effects : List MainEffect} {p' : Process}
      → main c o answers rounds fuel p ≡ some (returned code, effects, p')
      → (start : Bool × List MainEffect × Process) × (ran : List MainEffect) × (set_up c o answers p
          ≡ some start)
        × Ran o rounds fuel start ran
        × IsReleased answers.watched_fds answers.modem start.2.worker.al.tun_fd
            (start.1 ++ ran)
            effects
            p'.worker.al
  unfolding main
  main-IsReleased c rounds fuel p down e =
      Ensures-eq {P = Released c rounds fuel p}
        (Ensures->>= (set_up c o answers p) _ λ start e'.
          let kept = Ensures-eq (set_up-Kept o answers v c p down) e' in
          Ensures-map (Leaves answers.watched_fds o rounds fuel start) (Released c rounds fuel p)
            (Leaves-Released c rounds fuel p start e' kept.1)
            (after_set_up-Leaves answers.watched_fds o rounds fuel start kept.0))
        e
