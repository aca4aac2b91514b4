-- ===== src/Tasks/Transmit/Drain.antt =====
-- The replay in a tick of the radio task: the loop of `onTxTickLinkUp` of
-- ESP_AKS/lib/LoraLink/UplinkScheduler.cpp with the callback of ESP_AKS/src/main.cpp.
use tufan_aks.Base.{
  ℕ, zero, suc, ◌≡◌, ◌≤◌, inl, inr, refl, sym, arith, Bool, true, List, [], ◌∷◌, ◌++◌, length, ap,
  ap₂, ◌∙◌, subst, map, take, drop, All,
}
use tufan_aks.Data.{TelemetryData}
use tufan_aks.Buffer.{Ring}
use tufan_aks.Buffer.Refine.{IsRing, contents, front_agrees, QueueView}
use tufan_aks.Uplink.{replay}
use tufan_aks.Uplink.Replay.{replay_empty, replay_refused, replay_accepted}
use tufan_aks.Sanitize.{sanitize_for_uplink}
use tufan_aks.Telemetry.{frame}
use tufan_aks.Telemetry.Frame.{Fits}
use tufan_aks.Tasks.Transmit.{TxPort, TxContext, tx_send}
use tufan_aks.Tasks.Transmit.Room.{
  busy, asked, written, after_replay, Answers, Answers-true, Answers-false, Stops, Stops-more,
  tx_send-Answers,
}
use tufan_aks.Tasks.Transmit.Offer.{
  Offer, recorded, numbered, last_number, next_number, IsStarted, Offered, Sends, tx_send-Sends,
  append_nil,
}

append_assoc : {A : Type 0} (p q r : List A) → (p ++ q) ++ r ≡ p ++ (q ++ r)
append_assoc [] q r = refl
append_assoc (x ∷ p) q r = ap (λ t. x ∷ t) (append_assoc p q r)

numbered-append :
    (seq : ℕ) (ps qs : List (TelemetryData × Bool))
    → numbered seq (ps ++ qs) ≡ numbered seq ps ++ numbered (last_number seq ps) qs
numbered-append seq [] qs = refl
numbered-append seq (p ∷ ps) qs =
    ap (λ t. (frame seq (sanitize_for_uplink (p.0)), p.1) ∷ t)
      (numbered-append (next_number seq (p.1)) ps qs)

last_number-append :
    (seq : ℕ) (ps qs : List (TelemetryData × Bool))
    → last_number seq (ps ++ qs) ≡ last_number (last_number seq ps) qs
last_number-append seq [] qs = refl
last_number-append seq (p ∷ ps) qs = last_number-append (next_number seq (p.1)) ps qs

module _ {S : Type 0} where
  -- Two stretches one after the other.
  pub Offered-then :
      (ps qs : List (TelemetryData × Bool)) (c c' c'' : TxContext (S × List Offer))
      → Offered ps c c'
      → Offered qs c' c''
      → Offered (ps ++ qs) c c''
  Offered-then ps qs c c' c'' (i, n, l) (i', n', l') =
      let seq = c.telemetry.sequence_counter in
      (
        i',
        n' ∙ ap (λ k. last_number k qs) n ∙ sym (last_number-append seq ps qs),
        l'
            ∙ ap₂ (λ log k. log ++ numbered k qs) l n
            ∙ append_assoc (c.hardware.1) (numbered seq ps) (numbered (last_number seq ps) qs)
            ∙ ap (λ t. c.hardware.1 ++ t) (sym (numbered-append seq ps qs)),
      )

module _ {S : Type 0} (port : TxPort S) where
  -- A replay: it has offered the first n packets, each of which has left the ring.
  abbrev pub Replays :
      ℕ → Ring → TxContext (S × List Offer) → ℕ × Ring × TxContext (S × List Offer) → Type 0
  Replays burst r c t =
      (ps : List (TelemetryData × Bool)) × (t.0 ≤ burst)
      × (length ps ≡ t.0)
      × (map (λ p. p.0) ps ≡ take (t.0) (contents r))
      × IsRing (t.1)
      × (contents (t.1) ≡ drop (t.0) (contents r))
      × Stops port burst (length (contents r)) (t.0)
          (after_replay port c.telemetry.sequence_counter ps (c.hardware.0)) (t.2.hardware.0)
      × Offered ps c (t.2)

  replay_turn :
      (b : ℕ) (r : Ring) (c : TxContext (S × List Offer))
      → IsRing r
      → All Fits (contents r)
      → IsStarted c
      → ((q : Ring) (c' : TxContext (S × List Offer))
          → IsRing q
          → All Fits (contents q)
          → IsStarted c'
          → Replays b q c' (replay (tx_send (recorded port)) b q c'))
      → QueueView r
      → Replays (suc b) r c (replay (tx_send (recorded port)) (suc b) r c)
  replay_turn b r c wf fits i later (inl (e, f, p, o, d)) =
      subst (Replays (suc b) r c) (sym (replay_empty (tx_send (recorded port)) (suc b) r c p)) (
        [],
        omega arith,
        refl,
        refl,
        wf,
        refl,
        inl (inr (sym (ap length e)), refl),
        (i, refl, append_nil (c.hardware.1)),
      )
  replay_turn b r c wf fits i later (inr (x, q, e, wq, f, p, o, d)) =
      by_send (tx_send-Sends port x true c i (here.0))
    where
      here : Fits x × All Fits (contents q)
      here = subst (All Fits) e fits

      answer : Bool × TxContext (S × List Offer)
      answer = tx_send (recorded port) x true c

      answers :
          Answers port
            (busy port (c.hardware.0))
            (asked port (c.hardware.0))
            (written port true c.telemetry.sequence_counter x (asked port (c.hardware.0)))
            answer
      answers = tx_send-Answers port x true c i (here.0)

      rest : ℕ × Ring × TxContext (S × List Offer)
      rest = replay (tx_send (recorded port)) b q (answer.1)

      by_send :
          Sends port x c answer → Replays (suc b) r c (replay (tx_send (recorded port)) (suc b) r c)
      by_send (inl (a, k)) =
          subst (Replays (suc b) r c) (sym (replay_refused (tx_send (recorded port)) b r x c p a)) (
            [],
            omega arith,
            refl,
            refl,
            wf,
            refl,
            inr (
              omega arith,
              omega (arith, ap length e),
              (Answers-false port _ _ _ answer answers a).0,
              (Answers-false port _ _ _ answer answers a).1,
            ),
            k,
          )
      by_send (inr (a, taken, k)) =
          let (ps, n, l, m, w, h, z, g) = later q (answer.1) wq (here.1) (k.0) in
          subst (Replays (suc b) r c)
            (sym (
              replay_accepted (tx_send (recorded port)) b r x c p a
              ∙ ap
                  (λ v.
                    let t = replay (tx_send (recorded port)) b (v.1) (answer.1) in
                    (suc (t.0), t.1, t.2))
                  d))
            (
              (x, taken) ∷ ps,
              omega (arith, n),
              ap suc l,
              ap (λ t. x ∷ t) m ∙ ap (take (suc (rest.0))) (sym e),
              w,
              h ∙ ap (drop (suc (rest.0))) (sym e),
              Stops-more port b (length (contents r)) (rest.0) (length (contents q)) (ap length e) (
                  subst (λ s. Stops port b (length (contents q)) (rest.0) s (rest.2.hardware.0))
                    (ap₂ (λ j t. after_replay port j ps t) (k.1)
                      (Answers-true port _ _ _ answer answers a).1)
                    z),
              Offered-then ((x, taken) ∷ []) ps c (answer.1) (rest.2) k g,
            )

  pub replay_offers :
      (b : ℕ) (r : Ring) (c : TxContext (S × List Offer))
      → IsRing r
      → All Fits (contents r)
      → IsStarted c
      → Replays b r c (replay (tx_send (recorded port)) b r c)
  unfolding replay
  replay_offers zero r c wf fits i = (
    [],
    omega arith,
    refl,
    refl,
    wf,
    refl,
    inl (inl refl, refl),
    (i, refl, append_nil (c.hardware.1)),
  )
  replay_offers (suc b) r c wf fits i =
      replay_turn b r c wf fits i (λ q c' wq fq iq. replay_offers b q c' wq fq iq)
        (front_agrees r wf).1
