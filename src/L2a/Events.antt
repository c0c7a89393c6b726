-- ===== src/L2a/Events.antt =====
-- What `l2a_process` reports of the events, and what it forgets.
use mathlib.Core.List.{append-nil}
use schc_work.Common.{
  ℕ, ◌≡◌, refl, ◌∙◌, ap, Bool, true, false, Option, none, some, List, [], ◌∷◌, ◌++◌, map, arith,
  length, Bytes, ltb, ◌≤◌, if◌then◌else◌, Bool-cases, inl, inr, ap₂,
}
use schc_work.Common.Slices.{splice, splice-IsSpliced}
use schc_work.L2a.{
  l2a_success, l2a_l2_error, l2a_buffer_err, Upcall, processing_required, connectivity_available,
  transmission_result, data_received, Effect, up, L2a, Send, Sdk, no_events, write_all,
  l2a_send_data, send_all, call_up, packet_consumer, consume_all, RxStatus, read_ok,
  read_interrupted, read_failed, Read, after_status, read_downlink, when, l2a_process,
}

-- What one packet amounts to: its size, or an error if it is larger than the SDK's buffer.
abbrev pub reported : ℕ → Bytes → Effect
reported size pkt = up (
    if ltb size (length pkt)
    then data_received 0 l2a_buffer_err
    else data_received (length pkt) l2a_success)

-- What a round and the later ones amount to.
unfoldable pub joined : List Effect → Option (List Effect) → RxStatus → Option (List Effect)
joined packets rest read_ok = some packets
joined packets rest read_failed = some (packets ++ up (data_received 0 l2a_l2_error) ∷ [])
joined packets none read_interrupted = none
joined packets (some more) read_interrupted = some (packets ++ more)

-- What the reads amount to: every packet of every round, and an error if the last round failed.
-- `none` if the answers end before the loop does.
unfoldable pub reports_of_reads : ℕ → List Read → Option (List Effect)
reports_of_reads size [] = none
reports_of_reads size (read ∷ reads) =
    let rest = reports_of_reads size reads in
    joined (map (reported size) read.packets) rest read.status

-- A part of the module ran and left the events as they were, and the SDK's buffer its size.
record Kept (s s' : L2a) : Type 0 where
  connectivity : s'.connectivity_event ≡ s.connectivity_event
  transmission : s'.transmission_event ≡ s.transmission_event
  downlink : s'.downlink_event ≡ s.downlink_event
  size : s'.l2a_rx_buffer_size ≡ s.l2a_rx_buffer_size
  room : length s'.l2a_rx_buffer ≡ length s.l2a_rx_buffer

Kept-refl : (s : L2a) → Kept s s
Kept-refl s = record {
  connectivity = refl;
  transmission = refl;
  downlink = refl;
  size = refl;
  room = refl;
}

Kept-trans : {s t u : L2a} → Kept s t → Kept t u → Kept s u
Kept-trans p q = record {
  connectivity = q.connectivity ∙ p.connectivity;
  transmission = q.transmission ∙ p.transmission;
  downlink = q.downlink ∙ p.downlink;
  size = q.size ∙ p.size;
  room = q.room ∙ p.room;
}

-- A run that makes exactly these calls.
abbrev Reports : List Effect → L2a → Option (List Effect × L2a) → Type 0
Reports effects s r = (s' : L2a) × (r ≡ some (effects, s')) × Kept s s'

module _ (sdk : Sdk) (quiet : (u : Upcall) → sdk u ≡ []) where
  call_up-quiet : (u : Upcall) (s : L2a) → call_up sdk u s ≡ some (up u ∷ [], s)
  unfolding call_up send_all
  call_up-quiet u s = rw (quiet u) refl

  packet_consumer-Reports :
      (pkt : Bytes) (s : L2a)
      → s.l2a_rx_buffer_size ≤ length s.l2a_rx_buffer
      → Reports (reported s.l2a_rx_buffer_size pkt ∷ []) s (packet_consumer sdk pkt s)
  unfolding packet_consumer
  packet_consumer-Reports pkt s holds = elim (Bool-cases (ltb s.l2a_rx_buffer_size (length pkt))) [
    | inl large ↦ (s, rw large (call_up-quiet _ s), Kept-refl s)
    | inr small ↦
        let spliced = splice-IsSpliced s.l2a_rx_buffer 0 pkt (ground arith) in
        (
          record s { l2a_rx_buffer = splice s.l2a_rx_buffer 0 pkt },
          rw (small, spliced.written) (call_up-quiet _ _),
          record {
            connectivity = refl;
            transmission = refl;
            downlink = refl;
            size = refl;
            room = spliced.same_length;
          },
        )
  ]

  consume_all-Reports :
      (pkts : List Bytes) (s : L2a)
      → s.l2a_rx_buffer_size ≤ length s.l2a_rx_buffer
      → Reports (map (reported s.l2a_rx_buffer_size) pkts) s (consume_all sdk pkts s)
  unfolding consume_all
  consume_all-Reports [] s holds = (s, refl, Kept-refl s)
  consume_all-Reports (pkt ∷ pkts) s holds =
      let (s', e, k) = packet_consumer-Reports pkt s holds in
      let (s'', e', k') = consume_all-Reports pkts s' (omega (arith, k.size, k.room)) in
      (s'', rw (e, e', k.size) refl, Kept-trans k k')

  after_status-Reports :
      (packets effects : List Effect) (rest : Option (List Effect))
      (again : L2a → Option (List Effect × L2a)) (status : RxStatus) (s : L2a)
      → ((more : List Effect) → rest ≡ some more → Reports more s (again s))
      → joined packets rest status ≡ some effects
      → (more : List Effect) × (packets ++ more ≡ effects)
        × Reports more s (after_status sdk again status s)
  unfolding after_status joined
  after_status-Reports packets effects rest again read_ok s ih e =
      ([], append-nil packets ∙ cc, (s, refl, Kept-refl s))
  after_status-Reports packets effects rest again read_failed s ih e =
      (up (data_received 0 l2a_l2_error) ∷ [], cc, (s, call_up-quiet _ s, Kept-refl s))
  after_status-Reports packets effects none again read_interrupted s ih e = absurd (cc)
  after_status-Reports packets effects (some more) again read_interrupted s ih e =
      (more, cc, ih more refl)

  read_downlink-Reports :
      (reads : List Read) (s : L2a) (effects : List Effect)
      → s.l2a_rx_buffer_size ≤ length s.l2a_rx_buffer
      → reports_of_reads s.l2a_rx_buffer_size reads ≡ some effects
      → Reports effects s (read_downlink sdk reads s)
  unfolding read_downlink reports_of_reads
  read_downlink-Reports [] s effects holds e = absurd (cc)
  read_downlink-Reports (read ∷ reads) s effects holds e =
      let size = s.l2a_rx_buffer_size in
      let (s', ran, k) = consume_all-Reports read.packets s holds in
      let ih : (more : List Effect)
          → reports_of_reads size reads ≡ some more
          → Reports more s' (read_downlink sdk reads s') =
        λ more e'.
          read_downlink-Reports reads s' more (omega (arith, holds, k.size, k.room))
            (ap (λ n. reports_of_reads n reads) k.size ∙ e') in
      let (more, whole, (s'', ran', k')) =
        after_status-Reports (map (reported size) read.packets) effects
          (reports_of_reads size reads) (read_downlink sdk reads) read.status s' ih e in
      (s'', rw (ran, ran', whole) refl, Kept-trans k k')

  when-Reports :
      (flag : Bool) (step : L2a → Option (List Effect × L2a)) (effects : List Effect) (s : L2a)
      → (flag ≡ true → Reports effects s (step s))
      → Reports (if flag then effects else []) s (when flag step s)
  unfolding when
  when-Reports true step effects s h = h refl
  when-Reports false step effects s h = (s, refl, Kept-refl s)

-- No event is pending.
pub record IsQuiet (s : L2a) : Type 0 where
  pub connectivity : s.connectivity_event ≡ false
  pub transmission : s.transmission_event ≡ false
  pub downlink : s.downlink_event ≡ false

no_events-IsQuiet : (s : L2a) → IsQuiet (no_events s)
no_events-IsQuiet s = record { connectivity = refl; transmission = refl; downlink = refl }

-- The three steps of `l2a_process` in a row.
l2a_process-steps :
    (sdk : Sdk) (reads : List Read) (s s₁ s₂ s₃ : L2a) (x₁ x₂ x₃ : List Effect)
    → when s.connectivity_event (call_up sdk connectivity_available) s ≡ some (x₁, s₁)
    → when s₁.transmission_event (call_up sdk (transmission_result l2a_success)) s₁ ≡ some (x₂, s₂)
    → when s₂.downlink_event (read_downlink sdk reads) s₂ ≡ some (x₃, s₃)
    → l2a_process sdk reads s ≡ some (l2a_success, x₁ ++ (x₂ ++ x₃), no_events s₃)
unfolding l2a_process
l2a_process-steps sdk reads s s₁ s₂ s₃ x₁ x₂ x₃ e₁ e₂ e₃ = rw (e₁, e₂, e₃) refl

-- While the SDK sends nothing from inside its callbacks and its buffer has the size that it said,
-- `l2a_process` reports each pending event, once and in this order: the connectivity, the
-- transmission, and for a downlink every packet that the modem driver hands over, with an error in
-- place of a packet that is too large and one more if the last read failed. No event is left.
pub l2a_process-IsQuiet :
    (sdk : Sdk)
    → ((u : Upcall) → sdk u ≡ [])
    → (s : L2a) (reads : List Read) (effects : List Effect)
    → s.l2a_rx_buffer_size ≤ length s.l2a_rx_buffer
    → reports_of_reads s.l2a_rx_buffer_size reads ≡ some effects
    → (s' : L2a) × (l2a_process sdk reads s
        ≡ some (
          l2a_success,
          (if s.connectivity_event then up connectivity_available ∷ [] else [])
              ++ ((if s.transmission_event then up (transmission_result l2a_success) ∷ [] else [])
                  ++ (if s.downlink_event then effects else [])),
          s',
        ))
      × IsQuiet s'
l2a_process-IsQuiet sdk quiet s reads effects holds e =
    let result = up (transmission_result l2a_success) ∷ [] in
    let first = if s.connectivity_event then up connectivity_available ∷ [] else [] in
    let (s₁, e₁, k₁) =
      when-Reports sdk quiet s.connectivity_event (call_up sdk connectivity_available)
        (up connectivity_available ∷ []) s (λ _. (s, call_up-quiet sdk quiet _ s, Kept-refl s)) in
    let (s₂, e₂, k₂) =
      when-Reports sdk quiet s₁.transmission_event (call_up sdk (transmission_result l2a_success))
        result s₁ (λ _. (s₁, call_up-quiet sdk quiet _ s₁, Kept-refl s₁)) in
    let k = Kept-trans k₁ k₂ in
    let (s₃, e₃, k₃) =
      when-Reports sdk quiet s₂.downlink_event (read_downlink sdk reads) effects s₂ (λ _.
        read_downlink-Reports sdk quiet reads s₂ effects (omega (arith, holds, k.size, k.room))
          (ap (λ n. reports_of_reads n reads) k.size ∙ e)) in
    (
      no_events s₃,
      l2a_process-steps sdk reads s s₁ s₂ s₃ _ _ _ e₁ e₂ e₃
          ∙ ap₂
              (λ (a b : Bool). some (
                l2a_success,
                first ++ ((if a then result else []) ++ (if b then effects else [])),
                no_events s₃,
              ))
              k₁.transmission k.downlink,
      no_events-IsQuiet s₃,
    )

when_on :
    (flag : Bool) (step : L2a → Option (List Effect × L2a)) (s : L2a)
    → flag ≡ true
    → when flag step s ≡ step s
unfolding when
when_on true step s e = refl
when_on false step s e = absurd (cc)

when_off :
    (flag : Bool) (step : L2a → Option (List Effect × L2a)) (s : L2a)
    → flag ≡ false
    → when flag step s ≡ some ([], s)
unfolding when
when_off true step s e = absurd (cc)
when_off false step s e = refl

-- A send that the modem driver takes, in answer to a call: its result is pending.
call_up-pending :
    (sdk : Sdk) (u : Upcall) (send : Send) (s : L2a) (wrote : List Effect)
    → sdk u ≡ send ∷ []
    → write_all send.data_sent send.writes ≡ some (true, wrote)
    → call_up sdk u s
      ≡ some (
        up u ∷ ((wrote ++ up processing_required ∷ []) ++ []),
        record s { transmission_event = true },
      )
unfolding call_up send_all l2a_send_data
call_up-pending sdk u send s wrote again e = rw (again, e) refl

-- When only a transmission result is pending and the SDK sends again from inside its
-- `transmission_result` callback, which the driver takes, then `l2a_process` reports the first
-- result, and the result of the second transmission is never reported: no event is left, and a
-- further `l2a_process` reports nothing.
pub l2a_process-lost :
    (sdk : Sdk) (send : Send) (s : L2a) (wrote : List Effect) (reads reads' : List Read)
    → sdk (transmission_result l2a_success) ≡ send ∷ []
    → write_all send.data_sent send.writes ≡ some (true, wrote)
    → s.connectivity_event ≡ false
    → s.transmission_event ≡ true
    → s.downlink_event ≡ false
    → (s' : L2a) × (l2a_process sdk reads s
        ≡ some (
          l2a_success,
          up (transmission_result l2a_success) ∷ (wrote ++ up processing_required ∷ []),
          s',
        ))
      × (l2a_process sdk reads' s' ≡ some (l2a_success, [], s'))
l2a_process-lost sdk send s wrote reads reads' again e a b c =
    let s₂ : L2a = record s { transmission_event = true } in
    let s₃ = no_events s₂ in
    let sent = wrote ++ up processing_required ∷ [] in
    (
      s₃,
      l2a_process-steps sdk reads s s s₂ s₂ _ _ _ (when_off _ _ s a)
            (when_on _ _ s b ∙ call_up-pending sdk _ send s wrote again e) (when_off _ _ s₂ c)
          ∙ ap
              (λ (t : List Effect).
                some (l2a_success, up (transmission_result l2a_success) ∷ t, s₃))
              (append-nil (sent ++ []) ∙ append-nil sent),
      l2a_process-steps sdk reads' s₃ s₃ s₃ s₃ _ _ _ (when_off _ _ s₃ refl) (when_off _ _ s₃ refl)
          (when_off _ _ s₃ refl),
    )
