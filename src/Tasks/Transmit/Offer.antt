-- ===== src/Tasks/Transmit/Offer.antt =====
-- What `LoRa_txSend` of ESP_AKS/src/main.cpp offers to the UART.
use tufan_aks.Base.{
  ℕ, ◌+◌, ◌%◌, ◌≡◌, ◌<◌, ◌⊎◌, inl, inr, refl, sym, arith, Bool, true, false, not, if◌then◌else◌,
  List, [], ◌∷◌, ◌++◌, ap, subst,
}
use tufan_aks.Base.Int.{pos, ltb_ℤ}
use tufan_aks.Base.Words.{u32_mod}
use tufan_aks.Data.{TelemetryData}
use tufan_aks.Sanitize.{sanitize_for_uplink}
use tufan_aks.Telemetry.{Telemetry, frame}
use tufan_aks.Telemetry.Frame.{Fits, send_status-value}
use tufan_aks.Sanitize.Range.{sanitize-Fits}
use tufan_aks.Tasks.Transmit.{TxPort, TxContext, is_deferred, transmit, send_if_free, tx_send}

-- Bytes offered to the UART, and whether it took them.
abbrev pub Offer : Type 0
Offer = List ℕ × Bool

-- A port that keeps what is offered, the oldest first.
abbrev pub recorded : {S : Type 0} → TxPort S → TxPort (S × List Offer)
recorded port = record {
  is_aux_ready = λ (s, log). ((port.is_aux_ready s).0, ((port.is_aux_ready s).1, log));
  tx_buffer_free = λ (s, log). ((port.tx_buffer_free s).0, ((port.tx_buffer_free s).1, log));
  uart_write = λ bytes (s, log).
      let r = port.uart_write bytes s in
      (r.0, (r.1, log ++ ((bytes, not (ltb_ℤ (r.0) (pos 0))) ∷ [])));
  feed_watchdog = λ (s, log). (port.feed_watchdog s, log);
}

pub append_nil : (q : List Offer) → q ≡ q ++ []
append_nil [] = refl
append_nil (x ∷ q) = ap (λ t. x ∷ t) (append_nil q)

abbrev pub next_number : ℕ → Bool → ℕ
next_number seq taken = if taken then (seq + 1) % u32_mod else seq

-- The packets as they are offered, numbered from `seq` on; a number is used up if the UART takes the packet.
abbrev pub numbered : ℕ → List (TelemetryData × Bool) → List Offer
numbered seq [] = []
numbered seq (p ∷ ps) =
    (frame seq (sanitize_for_uplink (p.0)), p.1) ∷ numbered (next_number seq (p.1)) ps

abbrev pub last_number : ℕ → List (TelemetryData × Bool) → ℕ
last_number seq [] = seq
last_number seq (p ∷ ps) = last_number (next_number seq (p.1)) ps

module _ {S : Type 0} where
  -- The telemetry has been started, and its number is of 32 bits.
  abbrev pub IsStarted : TxContext S → Type 0
  IsStarted c = (c.telemetry.is_initialized ≡ true) × (c.telemetry.sequence_counter < u32_mod)

-- From one context to another exactly the packets of the list were offered.
abbrev pub Offered :
    {S : Type 0}
    → List (TelemetryData × Bool)
    → TxContext (S × List Offer)
    → TxContext (S × List Offer)
    → Type 0
Offered ps c c' =
    IsStarted c'
    × (c'.telemetry.sequence_counter ≡ last_number c.telemetry.sequence_counter ps)
    × (c'.hardware.1 ≡ c.hardware.1 ++ numbered c.telemetry.sequence_counter ps)

module _ {S : Type 0} (port : TxPort S) where
  -- The two ways in which the callback ends: false and nothing is offered, or true and the packet is.
  abbrev pub Sends :
      TelemetryData → TxContext (S × List Offer) → Bool × TxContext (S × List Offer) → Type 0
  Sends packet c r =
      ((r.0 ≡ false) × Offered [] c (r.1))
      ⊎ ((r.0 ≡ true) × (taken : Bool) × Offered ((packet, taken) ∷ []) c (r.1))

  -- The context after the packet, from what the sender did.
  abbrev after :
      Bool → TxContext (S × List Offer) → Telemetry × (S × List Offer) → TxContext (S × List Offer)
  after is_replay c sent = record c {
    telemetry = sent.0;
    aux_not_ready_logged = false;
    hardware = if is_replay then (recorded port).feed_watchdog (sent.1) else sent.1;
  }

  after-Offered :
      (packet : TelemetryData) (is_replay taken : Bool) (c : TxContext (S × List Offer)) (t : S)
      → IsStarted c
      → Offered ((packet, taken) ∷ []) c (
          after is_replay c (
            record c.telemetry {
              sequence_counter = next_number c.telemetry.sequence_counter taken;
            },
            (
              t,
              c.hardware.1
                  ++ ((frame c.telemetry.sequence_counter (sanitize_for_uplink packet), taken)
                      ∷ []),
            ),
          ))
  after-Offered packet true true c t (i, l) = ((i, omega arith), refl, refl)
  after-Offered packet true false c t (i, l) = ((i, l), refl, refl)
  after-Offered packet false true c t (i, l) = ((i, omega arith), refl, refl)
  after-Offered packet false false c t (i, l) = ((i, l), refl, refl)

  transmit-Offered :
      (packet : TelemetryData) (is_replay : Bool) (c : TxContext (S × List Offer))
      → IsStarted c
      → Fits packet
      → (taken : Bool) × Offered
          ((packet, taken) ∷ [])
          c
          (transmit (recorded port) packet is_replay c)
  unfolding transmit
  transmit-Offered packet is_replay c (i, l) f =
      let r =
        port.uart_write (frame c.telemetry.sequence_counter (sanitize_for_uplink packet))
          (c.hardware.0) in
      let taken = not (ltb_ℤ (r.0) (pos 0)) in
      let v =
        send_status-value (recorded port).uart_write (sanitize_for_uplink packet) c.telemetry
          c.hardware i l (sanitize-Fits packet f) in
      (
        taken,
        subst (λ sent. Offered ((packet, taken) ∷ []) c (after is_replay c sent)) (sym v)
            (after-Offered packet is_replay taken c (r.1) (i, l)),
      )

  send_if_free-Sends :
      (packet : TelemetryData) (is_replay : Bool) (c : TxContext (S × List Offer))
      → IsStarted c
      → Fits packet
      → Sends packet c (send_if_free (recorded port) packet is_replay c)
  unfolding send_if_free
  send_if_free-Sends packet is_replay c i f =
      by_space (is_deferred ((port.tx_buffer_free (c.hardware.0)).0))
    where
      free : S × List Offer
      free = ((port.tx_buffer_free (c.hardware.0)).1, c.hardware.1)

      kept : TxContext (S × List Offer)
      kept = record c { deferred_count = (c.deferred_count + 1) % u32_mod; hardware = free }

      by_space :
          (deferred : Bool)
          → Sends packet c (
              if deferred
              then (false, kept)
              else (true, transmit (recorded port) packet is_replay (record c { hardware = free })))
      by_space true = inl (refl, (i, refl, append_nil (c.hardware.1)))
      by_space false =
          let t = transmit-Offered packet is_replay (record c { hardware = free }) i f in
          inr (refl, t.0, t.1)

  -- With any port, a sender that has been started and a packet of values of the types of the source's
  -- fields: either the callback answers false and offers nothing to the UART, and the number stays; or it answers true
  -- and has offered the whole frame of the sanitised packet with the current number, which is used up exactly if the UART
  -- took the bytes. So it answers true, too, where the UART refused them.
  pub tx_send-Sends :
      (packet : TelemetryData) (is_replay : Bool) (c : TxContext (S × List Offer))
      → IsStarted c
      → Fits packet
      → Sends packet c (tx_send (recorded port) packet is_replay c)
  unfolding tx_send
  tx_send-Sends packet is_replay c i f = by_aux ((port.is_aux_ready (c.hardware.0)).0)
    where
      polled : S × List Offer
      polled = ((port.is_aux_ready (c.hardware.0)).1, c.hardware.1)

      kept : TxContext (S × List Offer)
      kept = record c { aux_not_ready_logged = true; hardware = polled }

      by_aux :
          (ready : Bool)
          → Sends packet c (
              if not ready
              then (false, kept)
              else send_if_free (recorded port) packet is_replay (record c { hardware = polled }))
      by_aux false = inl (refl, (i, refl, append_nil (c.hardware.1)))
      by_aux true = send_if_free-Sends packet is_replay (record c { hardware = polled }) i f
