-- ===== src/Worker/Main/Holds.antt =====
-- The TUN device and the table behind the set-up of `main`.
use schc_work.Common.{
  ◌≡◌, refl, sym, inl, inr, Bool, true, false, not, Option, some, List, [], ◌∷◌, ◌++◌,
  if◌then◌else◌, Ensures, result, Ensures->>=, Ensures-if, Ensures-eq, Bool-cases,
}
use schc_work.Common.Int.{eq_ℤ, ℤ, pos, is_neg}
use schc_work.Platform.FdTable.{Slot, used}
use schc_work.Platform.FdTable.Laws.{IsValid}
use schc_work.SchcAl.{Al, Options, Callback, Effect, InitAnswers, schc_al_init}
use schc_work.SchcAl.Lifecycle.{tun_entry, Started, schc_al_init-Started}
use schc_work.Worker.{Worker}
use schc_work.Worker.Device.{same, SameDevice}
use schc_work.Worker.Main.{
  set_up_calls, mgt_initialize, net_initialize, Config, MainEffect, Process, MainAnswers, set_mode,
  initialized, start_al, set_up,
}

-- Over the entries of `before`, the adaptation layer holds no device, or it holds one and watches
-- it.
pub data Holds (before : List (Slot Callback)) (s : Al) : Type 0 where
  nothing :
      is_neg s.tun_fd ≡ true
      → used s.watched_fds ≡ used before
      → IsValid s.watched_fds
      → Holds before s
  device :
      is_neg s.tun_fd ≡ false
      → used s.watched_fds ≡ used before ++ tun_entry s.tun_fd ∷ []
      → IsValid s.watched_fds
      → Holds before s

init-Holds :
    (o : Options) (answers : InitAnswers) (s : Al)
    → IsValid s.watched_fds
    → is_neg s.tun_fd ≡ true
    → Ensures (λ (r : ℤ × List Effect × Al). Holds s.watched_fds r.2) (schc_al_init o answers s)
init-Holds o answers s v down = held (schc_al_init-Started o answers s v)
  where
    held :
        {r : Option (ℤ × List Effect × Al)}
        → Started o answers s r
        → Ensures (λ (r : ℤ × List Effect × Al). Holds s.watched_fds r.2) r
    held (Started.no_context on failed e) = rw e (result _ (nothing down refl v))
    held (Started.already_up context up e) = absurd (cc)
    held (Started.no_device context d neg e) = rw e (result _ (nothing neg refl v))
    held (Started.gave_up_device context d f why e) = rw e (result _ (nothing refl refl v))
    held (Started.started slots context d f a b c e view w) = rw e (result _ (device f view w))

pub SameDevice-Holds :
    (before : List (Slot Callback)) (w w' : Worker)
    → SameDevice w w'
    → Holds before w.al
    → Holds before w'.al
SameDevice-Holds before w w' same (nothing down view v) =
    nothing (rw same.device down) (rw same.table view) (rw same.table v)
SameDevice-Holds before w w' same (device up view v) =
    device (rw same.device up) (rw (same.device, same.table) view) (rw same.table v)

pub set_mode-worker :
    (c : Config) (answers : MainAnswers) (p : Process) → (set_mode c answers p).worker ≡ p.worker
unfolding set_mode
set_mode-worker c answers p = elim (Bool-cases c.schc_peer_mode) [
  | inl a ↦ rw a refl
  | inr a ↦ rw a refl
]

abbrev pub Kept : List (Slot Callback) → ℤ → Bool × List MainEffect × Process → Type 0
Kept before modem r = Holds before r.2.worker.al × (r.2.ahoifd ≡ modem)

module _ (o : Options) (answers : MainAnswers) (v : IsValid answers.watched_fds) where
  start_al-Kept :
      (calls : List MainEffect) (p : Process)
      → p.worker.al.watched_fds ≡ answers.watched_fds
      → is_neg p.worker.al.tun_fd ≡ true
      → Ensures (Kept answers.watched_fds p.ahoifd) (start_al o answers calls p)
  unfolding start_al
  start_al-Kept calls p table down = Ensures->>= (schc_al_init o answers.init p.worker.al) _ λ r e.
      let held : Holds p.worker.al.watched_fds r.2 =
        Ensures-eq (init-Holds o answers.init p.worker.al (rw table v) down) e in
      let here : Holds answers.watched_fds r.2 = rw (sym table) held in
      elim (Bool-cases (eq_ℤ r.0 (pos 0))) [
        | inr a ↦ rw a (result _ (here, refl))
        | inl a ↦ elim (Bool-cases answers.sigint_ok) [
          | inr b ↦ rw (a, b) (result _ (here, refl))
          | inl b ↦ rw (a, b) (result _ (here, refl))
        ]
      ]

  pub set_up-Kept :
      (c : Config) (p : Process)
      → is_neg p.worker.al.tun_fd ≡ true
      → Ensures (Kept answers.watched_fds answers.modem) (set_up c o answers p)
  unfolding set_up initialized
  set_up-Kept c p down =
      let same_worker = set_mode-worker c answers p in
      let p' = initialized answers (set_mode c answers p) in
      let down' : is_neg p'.worker.al.tun_fd ≡ true = rw same_worker down in
      let calls = set_up_calls c ++ mgt_initialize ∷ [] in
      let done = calls ++ net_initialize ∷ [] in
      Ensures-if (not answers.mgt_ok) (some (false, calls, p'))
        (if not answers.net_ok then some (false, done, p') else start_al o answers done p')
        (λ _. result _ (nothing down' refl v, refl))
        (λ _.
          Ensures-if (not answers.net_ok) (some (false, done, p')) (start_al o answers done p')
            (λ _. result _ (nothing down' refl v, refl)) (λ _. start_al-Kept done p' refl down'))
