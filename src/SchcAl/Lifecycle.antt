-- ===== src/SchcAl/Lifecycle.antt =====
-- `schc_al_init` and `schc_al_terminate`: the descriptor of the TUN device and its entry in the
-- platform's table.
use mathlib.Core.List.{Perm, Mem, mem-append, map-append, mem-cons, perm_append_comm, Perm-prop}
use mathlib.Core.List.Perm
use mathlib.Core.Logic.{∥∥₁_elim}
use mathlib.Core.Logic.Or
use schc_work.Common.{
  ◌≡◌, refl, sym, ◌∙◌, ◌⊎◌, inl, inr, Bool, true, false, not, ◌&&◌, Option, some, List, [], ◌∷◌,
  ◌++◌, map, Bool-cases, length,
}
use schc_work.Common.Int.{ℤ, pos, minus_one, is_neg}
use schc_work.Platform.FdTable.{
  Slot, used, watch_fd_for_input, unwatch_fd_for_input, max_watched_fds,
}
use schc_work.Platform.FdTable.Laws.{
  IsValid, watched, Watched, stored, refused, watch_fd_for_input-Watched,
}
use schc_work.Platform.FdTable.Unwatch.{Unwatched, unwatch_fd_for_input-Unwatched}
use schc_work.SchcAl.{
  Al, Options, Callback, schc_al_tun_received_handler, Effect, closed, InitAnswers, no_events,
  give_up, set_up_tun, schc_al_init, schc_al_terminate,
}

-- The entry that the worker watches its TUN device by.
abbrev pub tun_entry : ℤ → Slot Callback
tun_entry fd = record { fd = fd; cb = some schc_al_tun_received_handler }

-- The state of a worker that runs on the descriptor `fd`.
abbrev pub running_on : ℤ → List (Slot Callback) → Al → Al
running_on fd slots s = record (no_events s) {
  tun_fd = fd;
  watched_fds = slots;
  connectivity_available = true;
  processing_required = true;
}

-- The security context is there if it is needed.
abbrev pub HasContext : Options → InitAnswers → Type 0
HasContext o answers = o.oscore_proxy_enabled ≡ true → answers.context_ok ≡ true

-- Why a device that was opened is given up: a command fails, or the table is full or has its
-- descriptor already.
abbrev pub GivesUp : InitAnswers → Al → Type 0
GivesUp answers s =
    (answers.link_up ≡ false)
    ⊎ (answers.addr_added ≡ false)
    ⊎ (answers.route_replaced ≡ false)
    ⊎ (is_neg answers.tun ≡ true)
    ⊎ (Mem answers.tun (watched s.watched_fds))
    ⊎ (length (used s.watched_fds) ≡ max_watched_fds)

-- All that `schc_al_init` can do, each with the answers for which it does it.
pub data Started (o : Options) (answers : InitAnswers) (s : Al) (r : Option (ℤ × List Effect × Al))
    : Type 0 where
  no_context :
      o.oscore_proxy_enabled ≡ true
      → answers.context_ok ≡ false
      → r ≡ some (minus_one, [], no_events s)
      → Started o answers s r
  already_up :
      HasContext o answers
      → is_neg s.tun_fd ≡ false
      → r ≡ some (pos 0, [], no_events s)
      → Started o answers s r
  no_device :
      HasContext o answers
      → is_neg s.tun_fd ≡ true
      → is_neg answers.tun ≡ true
      → r ≡ some (minus_one, [], record (no_events s) { tun_fd = answers.tun })
      → Started o answers s r
  gave_up_device :
      HasContext o answers
      → is_neg s.tun_fd ≡ true
      → is_neg answers.tun ≡ false
      → GivesUp answers s
      → r ≡ some (minus_one, closed answers.tun ∷ [], record (no_events s) { tun_fd = minus_one })
      → Started o answers s r
  started :
      (slots : List (Slot Callback))
      → HasContext o answers
      → is_neg s.tun_fd ≡ true
      → is_neg answers.tun ≡ false
      → answers.link_up ≡ true
      → answers.addr_added ≡ true
      → answers.route_replaced ≡ true
      → r ≡ some (pos 0, [], running_on answers.tun slots s)
      → used slots ≡ used s.watched_fds ++ tun_entry answers.tun ∷ []
      → IsValid slots
      → Started o answers s r

module _ (o : Options) (answers : InitAnswers) (s : Al) (c : HasContext o answers)
    (down : is_neg s.tun_fd ≡ true) (fresh : is_neg answers.tun ≡ false) where
  abbrev opened : Al
  opened = record (no_events s) { tun_fd = answers.tun }

  Watched-Started :
      {r : Option (Bool × List (Slot Callback))}
      → Watched answers.tun (some schc_al_tun_received_handler) s.watched_fds r
      → r ≡ watch_fd_for_input answers.tun (some schc_al_tun_received_handler) s.watched_fds
      → answers.link_up ≡ true
      → answers.addr_added ≡ true
      → answers.route_replaced ≡ true
      → Started o answers s (set_up_tun answers opened)
  unfolding set_up_tun give_up
  Watched-Started (stored slots e view v) same a b d =
      started slots c down fresh a b d (rw (a, b, d, sym same ∙ e)) view v
  Watched-Started (refused e why) same a b d =
      gave_up_device c down fresh (inr (inr (inr why))) (rw (a, b, d, sym same ∙ e))

  set_up-Started : IsValid s.watched_fds → Started o answers s (set_up_tun answers opened)
  unfolding set_up_tun give_up
  set_up-Started v = elim (Bool-cases answers.link_up) [
    | inr a ↦ gave_up_device c down fresh (inl a) (rw a)
    | inl a ↦ elim (Bool-cases answers.addr_added) [
      | inr b ↦ gave_up_device c down fresh (inr (inl b)) (rw (a, b))
      | inl b ↦ elim (Bool-cases answers.route_replaced) [
        | inr d ↦ gave_up_device c down fresh (inr (inr (inl d))) (rw (a, b, d))
        | inl d ↦
            Watched-Started
              (watch_fd_for_input-Watched answers.tun (some schc_al_tun_received_handler)
                s.watched_fds v)
              refl a b d
      ]
    ]
  ]

context-cases :
    (o : Options) (answers : InitAnswers)
    → ((o.oscore_proxy_enabled ≡ true) × (answers.context_ok ≡ false))
      ⊎ (HasContext o answers × (o.oscore_proxy_enabled && not answers.context_ok ≡ false))
context-cases o answers = elim (Bool-cases o.oscore_proxy_enabled) [
  | inr off ↦ inr (λ on. absurd (cc), rw off refl)
  | inl on ↦ elim (Bool-cases answers.context_ok) [
    | inl ok ↦ inr (λ _. ok, rw (on, ok) refl)
    | inr failed ↦ inl (on, failed)
  ]
]

-- On a valid table, `schc_al_init` never accesses anything outside of it, and it ends in one of
-- five ways. With OSCORE on and no security context it fails, and changes nothing but the events.
-- Otherwise it succeeds at once if it holds a descriptor already; it fails if no device was opened;
-- if a command fails or the device cannot be watched, the descriptor is closed, none is held and
-- the table is as before; and if all this succeeds it holds the descriptor, which has been added
-- behind the watched entries, with the events set for a start.
pub schc_al_init-Started :
    (o : Options) (answers : InitAnswers) (s : Al)
    → IsValid s.watched_fds
    → Started o answers s (schc_al_init o answers s)
unfolding schc_al_init
schc_al_init-Started o answers s v = elim (context-cases o answers) [
  | inl (on, failed) ↦ no_context on failed (rw (on, failed))
  | inr (context, a) ↦ elim (Bool-cases (is_neg s.tun_fd)) [
    | inr b ↦ already_up context b (rw (a, b))
    | inl b ↦ elim (Bool-cases (is_neg answers.tun)) [
      | inl c ↦ no_device context b c (rw (a, b, c))
      | inr c ↦ rw (a, b, c) (set_up-Started o answers s context b c v)
    ]
  ]
]

-- The entry of the descriptor goes, whichever one it is, and it is the one that was added.
entry-removed :
    (fd : ℤ) (before : List (Slot Callback)) (s : Slot Callback) (after : List (Slot Callback))
    → Perm (before ++ tun_entry fd ∷ []) (s ∷ after)
    → ¬ Mem fd (map (λ r. r.fd) after)
    → Perm before after
entry-removed fd before s after perm gone =
    let swapped : Perm (tun_entry fd ∷ before) (s ∷ after) =
      Perm.trans (perm_append_comm (tun_entry fd ∷ []) before) perm in
    ∥∥₁_elim (Perm.cons-cons_cases swapped) Perm-prop (cases)
  where
    cases :
        ((tun_entry fd ≡ s) × Perm before after)
          ⊎ ((rest : List (Slot Callback)) × Perm before (s ∷ rest)
              × Perm after (tun_entry fd ∷ rest))
        → Perm before after
    cases (inl (e, p)) = p
    cases (inr (rest, p, q)) = absurd (
        gone (
          (Perm.mem_iff (Perm.map (λ (r : Slot Callback). r.fd) (Perm.symm q))).0
            (mem-cons.1 (Or.inl refl))))

-- The worker has let go of its descriptor: it is closed, none is held, no event is left, and the
-- platform watches the descriptors of `before`, in some order.
pub record IsTerminated (fd : ℤ) (before : List (Slot Callback)) (r : Option (ℤ × List Effect × Al))
    : Type 0 where
  pub after : Al
  pub returns : r ≡ some (pos 0, closed fd ∷ [], after)
  pub released : after.tun_fd ≡ minus_one
  pub quiet :
      (after.processing_required ≡ false)
      × (after.connectivity_available ≡ false)
      × (after.ip_packet_available ≡ false)
      × (after.ongoing_transmission ≡ false)
  pub unwatched : Perm before (used after.watched_fds)
  pub sound : IsValid after.watched_fds

module _ (s : Al) (fd : ℤ) (before : List (Slot Callback)) (holds : s.tun_fd ≡ fd)
    (fresh : is_neg fd ≡ false) (view : used s.watched_fds ≡ before ++ tun_entry fd ∷ []) where
  is_watched : Mem fd (watched s.watched_fds)
  is_watched = rw (view, map-append) (mem-append.1 (Or.inr (mem-cons.1 (Or.inl refl))))

  pub Unwatched-IsTerminated :
      {r : Option (Bool × List (Slot Callback))}
      → Unwatched fd s.watched_fds r
      → r ≡ unwatch_fd_for_input fd s.watched_fds
      → IsTerminated fd before (schc_al_terminate s)
  unfolding schc_al_terminate
  Unwatched-IsTerminated (Unwatched.removed entry slots e is_fd perm gone v) same = record {
    after = no_events (record s { watched_fds = slots; tun_fd = minus_one });
    returns = rw (holds, fresh, sym same ∙ e);
    released = refl;
    quiet = (refl, refl, refl, refl);
    unwatched = entry-removed fd before entry (used slots) (rw view at perm) gone;
    sound = v;
  }
  Unwatched-IsTerminated (Unwatched.refused e (inl neg)) same = absurd (cc)
  Unwatched-IsTerminated (Unwatched.refused e (inr missing)) same = absurd (missing is_watched)

-- After a start of `schc_al_init` that opened a device, `schc_al_terminate` closes exactly the
-- descriptor that was opened, holds none, clears every event, and the platform's table watches
-- the entries that it watched before the start, in some order.
pub schc_al_init-terminate :
    (o : Options) (answers : InitAnswers) (s s' : Al)
    → IsValid s.watched_fds
    → is_neg s.tun_fd ≡ true
    → schc_al_init o answers s ≡ some (pos 0, [], s')
    → IsTerminated answers.tun (used s.watched_fds) (schc_al_terminate s')
schc_al_init-terminate o answers s s' v down start = terminated (schc_al_init-Started o answers s v)
  where
    terminated :
        Started o answers s (schc_al_init o answers s)
        → IsTerminated answers.tun (used s.watched_fds) (schc_al_terminate s')
    terminated (no_context on failed e) = absurd (cc)
    terminated (already_up context up e) = absurd (cc)
    terminated (no_device context d f e) = absurd (cc)
    terminated (gave_up_device context d f why e) = absurd (cc)
    terminated (started slots context d fresh a b c e view w) =
        let same : running_on answers.tun slots s ≡ s' = cc in
        rw (sym same) (
          Unwatched-IsTerminated (running_on answers.tun slots s) answers.tun (used s.watched_fds)
            refl fresh view (unwatch_fd_for_input-Unwatched answers.tun slots w) refl)
