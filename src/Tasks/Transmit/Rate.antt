-- ===== src/Tasks/Transmit/Rate.antt =====
-- What a tick of the radio task offers to the UART, with the scheduler of
-- ESP_AKS/lib/LoraLink/UplinkScheduler.cpp and the callback of ESP_AKS/src/main.cpp.
use tufan_aks.Base.{
  ℕ, ◌+◌, ◌*◌, ◌≡◌, ◌≤◌, ◌⊎◌, inl, inr, refl, sym, arith, Bool, true, false, List, [], ◌∷◌, ◌++◌,
  length, length-append, Option, none, some, subst, map, take, drop, All,
}
use tufan_aks.Data.{TelemetryData}
use tufan_aks.Buffer.{Ring}
use tufan_aks.Buffer.Refine.{IsRing, contents}
use tufan_aks.Uplink.{UplinkScheduler, replay, send_live, on_tx_tick_link_up}
use tufan_aks.Telemetry.Frame.{Fits}
use tufan_aks.Tasks.Transmit.{TxPort, TxContext, tx_send}
use tufan_aks.Tasks.Transmit.Bytes.{total_bytes, bytes_bound, All-take, All-map, All-append}
use tufan_aks.Tasks.Transmit.Room.{
  busy, asked, written, after_replay, Answers, Answers-true, Answers-false, Stops, tx_send-Answers,
}
use tufan_aks.Tasks.Transmit.Offer.{
  Offer, recorded, numbered, IsStarted, Offered, Sends, tx_send-Sends, append_nil,
}
use tufan_aks.Tasks.Transmit.Drain.{Offered-then, replay_offers}

module _ {S : Type 0} (port : TxPort S) where
  -- After the replay: nothing, if there is no live packet or the port is busy, or the live packet.
  LiveOffered :
      Option TelemetryData → TxContext (S × List Offer) → TxContext (S × List Offer) → Type 0
  LiveOffered live c c' =
      (((live ≡ none) ⊎ (busy port (c.hardware.0) ≡ true)) × Offered [] c c')
      ⊎ ((x : TelemetryData) × (taken : Bool) × (live ≡ some x)
          × (busy port (c.hardware.0) ≡ false)
          × Offered ((x, taken) ∷ []) c c')

  send_live-LiveOffered :
      (live : Option TelemetryData) (c : TxContext (S × List Offer))
      → IsStarted c
      → ((x : TelemetryData) → live ≡ some x → Fits x)
      → LiveOffered live c (send_live (tx_send (recorded port)) live c).1
  unfolding send_live LiveOffered
  send_live-LiveOffered none c i f = inl (inl refl, (i, refl, append_nil (c.hardware.1)))
  send_live-LiveOffered (some x) c i f =
      by_send (tx_send-Sends port x false c i (f x refl))
        (tx_send-Answers port x false c i (f x refl))
    where
      by_send :
          Sends port x c (tx_send (recorded port) x false c)
          → Answers port
              (busy port (c.hardware.0))
              (asked port (c.hardware.0))
              (written port false c.telemetry.sequence_counter x (asked port (c.hardware.0)))
              (tx_send (recorded port) x false c)
          → LiveOffered (some x) c (tx_send (recorded port) x false c).1
      by_send (inl (a, k)) w =
          inl (inr (Answers-false port _ _ _ (tx_send (recorded port) x false c) w a).0, k)
      by_send (inr (a, taken, k)) w =
          inr
            (x, taken, refl, (Answers-true port _ _ _ (tx_send (recorded port) x false c) w a).0, k)

module _ {S : Type 0} (port : TxPort S) where
  -- What follows a replay that left the port in the state s: nothing, if there is no live packet or the
  -- port is busy, or the live packet.
  abbrev pub Tail : Option TelemetryData → S → List (TelemetryData × Bool) → Type 0
  Tail live s qs =
      (((live ≡ none) ⊎ (busy port s ≡ true)) × (qs ≡ []))
      ⊎ ((x : TelemetryData) × (taken : Bool) × (live ≡ some x)
          × (busy port s ≡ false)
          × (qs ≡ (x, taken) ∷ []))

  Tail-of :
      (live : Option TelemetryData) (c c' : TxContext (S × List Offer))
      → LiveOffered port live c c'
      → (qs : List (TelemetryData × Bool)) × Tail live (c.hardware.0) qs × Offered qs c c'
  unfolding LiveOffered
  Tail-of live c c' (inl (z, k)) = ([], inl (z, refl), k)
  Tail-of live c c' (inr (x, taken, e, z, k)) = ((x, taken) ∷ [], inr (x, taken, e, z, refl), k)

  Tail-few :
      (live : Option TelemetryData) (s : S) (qs : List (TelemetryData × Bool))
      → ((x : TelemetryData) → live ≡ some x → Fits x)
      → Tail live s qs
      → (length qs ≤ 1) × All (λ p. Fits (p.0)) qs
  Tail-few live s qs f (inl (z, e)) =
      subst (λ l. (length l ≤ 1) × All (λ p. Fits (p.0)) l) (sym e) (omega arith, tt)
  Tail-few live s qs f (inr (x, taken, h, z, e)) =
      subst (λ l. (length l ≤ 1) × All (λ p. Fits (p.0)) l) (sym e) (omega arith, (f x h, tt))

  -- A tick with the link up, with any port, a started sender, a well-formed ring, and values of the types
  -- of the source's fields in the ring and in the live packet. It offers to the UART the n oldest
  -- samples and after them at most the live packet, and nothing else; exactly those n samples leave the
  -- ring, taken by the UART or not. The replay stops only where the burst is spent, the ring is empty,
  -- or the port is busy after the n packets (not ready, or with less than 120 bytes free); the live
  -- packet is offered exactly if there is one and the port, as the replay leaves it, is not busy. Each
  -- packet carries the current number, which is used up only if the UART takes the packet, so that
  -- after a refused packet the next one carries the same number. All of it is at most 108 bytes for
  -- each packet of the burst and one more.
  pub tick_offers :
      (live : Option TelemetryData) (u : UplinkScheduler) (r : Ring)
      (c : TxContext (S × List Offer))
      → IsRing r
      → All Fits (contents r)
      → ((x : TelemetryData) → live ≡ some x → Fits x)
      → IsStarted c
      → let t = on_tx_tick_link_up (tx_send (recorded port)) live u r c in
        (n : ℕ) × (ps : List (TelemetryData × Bool)) × (qs : List (TelemetryData × Bool)) × (s : S)
        × (n ≤ u.replay_burst_per_tick)
        × (map (λ p. p.0) ps ≡ take n (contents r))
        × Stops port u.replay_burst_per_tick
            (length (contents r))
            n
            (after_replay port c.telemetry.sequence_counter ps (c.hardware.0))
            s
        × Tail live s qs
        × (contents (t.1) ≡ drop n (contents r))
        × IsRing (t.1)
        × Offered (ps ++ qs) c (t.2)
        × (total_bytes (numbered c.telemetry.sequence_counter (ps ++ qs))
            ≤ 108 * (u.replay_burst_per_tick + 1))
  unfolding on_tx_tick_link_up
  tick_offers live u r c wf fits lf i =
      let a = replay (tx_send (recorded port)) u.replay_burst_per_tick r c in
      let (ps, n, l, m, w, h, z, g) = replay_offers port u.replay_burst_per_tick r c wf fits i in
      let after = (send_live (tx_send (recorded port)) live (a.2)).1 in
      let (qs, t, k) = Tail-of live (a.2) after (send_live-LiveOffered port live (a.2) (g.0) lf) in
      let few = Tail-few live (a.2.hardware.0) qs lf t in
      let fp = All-map ps (subst (All Fits) (sym m) (All-take (a.0) (contents r) fits)) in
      (
        a.0,
        ps,
        qs,
        a.2.hardware.0,
        n,
        m,
        z,
        t,
        h,
        w,
        Offered-then ps qs c (a.2) after g k,
        omega (
          arith,
          bytes_bound c.telemetry.sequence_counter (ps ++ qs) (i.1) (All-append ps qs fp (few.1)),
          length-append ps qs,
          few.0,
          l,
          n,
        ),
      )
