-- ===== src/Tasks/Transmit/Room.antt =====
-- When `LoRa_txSend` of ESP_AKS/src/main.cpp refuses a packet, and the state in which it leaves the UART.
use tufan_aks.Base.{
  ℕ, suc, ◌<◌, sym, ◌≡◌, ◌⊎◌, inl, inr, refl, ◌∙◌, ap, arith, Bool, true, false, not, ◌&&◌, leb,
  if◌then◌else◌, List, [], ◌∷◌, Option, none, some, Bool-cases,
}
use tufan_aks.Data.{TelemetryData}
use tufan_aks.Sanitize.{sanitize_for_uplink}
use tufan_aks.Sanitize.Range.{sanitize-Fits}
use tufan_aks.Telemetry.{frame}
use tufan_aks.Telemetry.Frame.{Fits, send_status-value}
use tufan_aks.Tasks.Transmit.{TxPort, TxContext, is_deferred, transmit, send_if_free, tx_send}
use tufan_aks.Tasks.Transmit.Offer.{Offer, recorded, next_number, IsStarted}

abbrev has_room : Option ℕ → Bool
has_room none = false
has_room (some free) = leb 120 free

is_deferred-has_room : (free : Option ℕ) → is_deferred free ≡ not (has_room free)
is_deferred-has_room none = refl
is_deferred-has_room (some free) = ground arith

module _ {S : Type 0} (port : TxPort S) where
  -- The module is not ready, or the buffer of the UART has less than 120 bytes free or does not say.
  abbrev pub busy : S → Bool
  busy s = not ((port.is_aux_ready s).0 && has_room (port.tx_buffer_free (port.is_aux_ready s).1).0)

  -- The state after both were asked, the second only if the first agrees.
  abbrev pub asked : S → S
  asked s =
      if (port.is_aux_ready s).0
      then (port.tx_buffer_free (port.is_aux_ready s).1).1
      else (port.is_aux_ready s).1

  -- The state after the packet with the number `seq` was written.
  abbrev pub written : Bool → ℕ → TelemetryData → S → S
  written is_replay seq packet s =
      let w = (port.uart_write (frame seq (sanitize_for_uplink packet)) s).1 in
      if is_replay then port.feed_watchdog w else w

  -- The state after a replay of these packets, none of them refused.
  abbrev pub after_replay : ℕ → List (TelemetryData × Bool) → S → S
  after_replay seq [] s = s
  after_replay seq (p ∷ ps) s =
      after_replay (next_number seq (p.1)) ps (written true seq (p.0) (asked s))

  -- A refusal of a busy port, or a packet written to one that is not.
  abbrev pub Answers : Bool → S → S → Bool × TxContext (S × List Offer) → Type 0
  Answers is_busy refused sent r =
      ((r.0 ≡ false) × (is_busy ≡ true) × (r.1.hardware.0 ≡ refused))
      ⊎ ((r.0 ≡ true) × (is_busy ≡ false) × (r.1.hardware.0 ≡ sent))

  transmit-hardware :
      (packet : TelemetryData) (is_replay : Bool) (c : TxContext (S × List Offer))
      → IsStarted c
      → Fits packet
      → (transmit (recorded port) packet is_replay c).hardware.0
        ≡ written is_replay c.telemetry.sequence_counter packet (c.hardware.0)
  unfolding transmit
  transmit-hardware packet true c (i, l) f =
      ap (λ sent. port.feed_watchdog (sent.1.0))
        (send_status-value (recorded port).uart_write (sanitize_for_uplink packet) c.telemetry
          c.hardware i l (sanitize-Fits packet f))
  transmit-hardware packet false c (i, l) f =
      ap (λ sent. sent.1.0)
        (send_status-value (recorded port).uart_write (sanitize_for_uplink packet) c.telemetry
          c.hardware i l (sanitize-Fits packet f))

  module _ (packet : TelemetryData) (is_replay : Bool) (c : TxContext (S × List Offer)) where
    abbrev polled : S × List Offer
    polled = ((port.is_aux_ready (c.hardware.0)).1, c.hardware.1)

    abbrev free : Option ℕ × S
    free = port.tx_buffer_free (polled.0)

    not_ready :
        (port.is_aux_ready (c.hardware.0)).0 ≡ false
        → tx_send (recorded port) packet is_replay c
          ≡ (false, record c { aux_not_ready_logged = true; hardware = polled })
    unfolding tx_send
    not_ready e = rw (e, tx_send) refl

    no_room :
        (port.is_aux_ready (c.hardware.0)).0 ≡ true
        → has_room (free.0) ≡ false
        → ((tx_send (recorded port) packet is_replay c).0 ≡ false)
          × ((tx_send (recorded port) packet is_replay c).1.hardware.0 ≡ free.1)
    unfolding tx_send send_if_free
    no_room e h =
        let d : is_deferred (free.0) ≡ true = is_deferred-has_room (free.0) ∙ ap not h in
        (rw (e, d, tx_send, send_if_free) refl, rw (e, d, tx_send, send_if_free) refl)

    room :
        (port.is_aux_ready (c.hardware.0)).0 ≡ true
        → has_room (free.0) ≡ true
        → tx_send (recorded port) packet is_replay c ≡ (
          true,
          transmit
              (recorded port)
              packet
              is_replay
              (record c { hardware = (free.1, c.hardware.1) }),
        )
    unfolding tx_send send_if_free
    room e h =
        let d : is_deferred (free.0) ≡ false = is_deferred-has_room (free.0) ∙ ap not h in
        rw (e, d, tx_send, send_if_free) refl

  pub tx_send-Answers :
      (packet : TelemetryData) (is_replay : Bool) (c : TxContext (S × List Offer))
      → IsStarted c
      → Fits packet
      → Answers
          (busy (c.hardware.0))
          (asked (c.hardware.0))
          (written is_replay c.telemetry.sequence_counter packet (asked (c.hardware.0)))
          (tx_send (recorded port) packet is_replay c)
  tx_send-Answers packet is_replay c i f = elim (Bool-cases (port.is_aux_ready (c.hardware.0)).0) [
    | inr e ↦
        let t = not_ready packet is_replay c e in
        inl (ap (λ r. r.0) t, rw e refl, ap (λ r. r.1.hardware.0) t ∙ rw e refl)
    | inl e ↦ elim (Bool-cases (has_room (free packet is_replay c).0)) [
      | inr h ↦ let t = no_room packet is_replay c e h in inl (t.0, rw (e, h) refl, t.1 ∙ rw e refl)
      | inl h ↦
          let t = room packet is_replay c e h in
          inr (
            ap (λ r. r.0) t,
            rw (e, h) refl,
            ap (λ r. r.1.hardware.0) t
                ∙ transmit-hardware packet is_replay
                    (record c { hardware = ((free packet is_replay c).1, c.hardware.1) }) i f
                ∙ rw e refl,
          )
    ]
  ]

  module _ (is_busy : Bool) (refused sent : S) (r : Bool × TxContext (S × List Offer)) where
    pub Answers-false :
        Answers is_busy refused sent r → r.0 ≡ false → (is_busy ≡ true) × (r.1.hardware.0 ≡ refused)
    Answers-false (inl (a, b, h)) e = (b, h)
    Answers-false (inr (a, b, h)) e = absurd (ground arith)

    pub Answers-true :
        Answers is_busy refused sent r → r.0 ≡ true → (is_busy ≡ false) × (r.1.hardware.0 ≡ sent)
    Answers-true (inl (a, b, h)) e = absurd (ground arith)
    Answers-true (inr (a, b, h)) e = (b, h)

  -- Why a replay of n of `count` samples stopped, s being the state after them: the burst is spent or
  -- the ring is empty, and s stays; or the port was busy.
  abbrev pub Stops : ℕ → ℕ → ℕ → S → S → Type 0
  Stops burst count n s final =
      (((n ≡ burst) ⊎ (n ≡ count)) × (final ≡ s))
      ⊎ ((n < burst) × (n < count) × (busy s ≡ true) × (final ≡ asked s))

  pub Stops-more :
      (b count n rest : ℕ) {s final : S}
      → count ≡ suc rest
      → Stops b rest n s final
      → Stops (suc b) count (suc n) s final
  Stops-more b count n rest e (inl (inl h, k)) = inl (inl (ap suc h), k)
  Stops-more b count n rest e (inl (inr h, k)) = inl (inr (ap suc h ∙ sym e), k)
  Stops-more b count n rest e (inr (h, j, k, l)) = inr (omega arith, omega arith, k, l)
