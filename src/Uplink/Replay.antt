-- ===== src/Uplink/Replay.antt =====
-- The replay of the samples of an outage, `onTxTickLinkUp` of
-- ESP_AKS/lib/LoraLink/UplinkScheduler.cpp, with any callback.
use tufan_aks.Base.{
  ℕ, zero, suc, ◌+◌, ◌≡◌, refl, ◌≤◌, ◌∙◌, ap, ap₂, sym, arith, Bool, true, false, if◌then◌else◌,
  List, [], ◌∷◌, ◌++◌, take, drop, Option, none, some, Bool-cases, ◌⊎◌, inl, inr, subst,
}
use tufan_aks.Data.{TelemetryData}
use tufan_aks.Buffer.{Ring, ob_peek, ob_drop_front}
use tufan_aks.Buffer.Refine.{IsRing, contents, front_agrees, QueueView}
use tufan_aks.Uplink.{UplinkScheduler, replay, send_live, on_tx_tick_link_up}

-- A callback with a log of the packets that it accepted, the oldest first.
abbrev pub logged :
    {S : Type 0}
    → (TelemetryData → Bool → S → Bool × S)
    → TelemetryData
    → Bool
    → S × List TelemetryData
    → Bool × (S × List TelemetryData)
logged send x is_replay (s, log) = (
  (send x is_replay s).0,
  ((send x is_replay s).1, if (send x is_replay s).0 then log ++ (x ∷ []) else log),
)

-- A turn of the loop, as the ring and the callback answer.
module _ {S : Type 0} (send : TelemetryData → Bool → S → Bool × S) where
  pub replay_empty : (b : ℕ) (r : Ring) (s : S) → ob_peek r ≡ none → replay send b r s ≡ (0, r, s)
  unfolding replay
  replay_empty zero r s e = refl
  replay_empty (suc b) r s e = rw (e, replay) refl

  pub replay_refused :
      (b : ℕ) (r : Ring) (x : TelemetryData) (s : S)
      → ob_peek r ≡ some x
      → (send x true s).0 ≡ false
      → replay send (suc b) r s ≡ (0, r, (send x true s).1)
  unfolding replay
  replay_refused b r x s e a = rw (e, a, replay) refl

  pub replay_accepted :
      (b : ℕ) (r : Ring) (x : TelemetryData) (s : S)
      → ob_peek r ≡ some x
      → (send x true s).0 ≡ true
      → let t = replay send b (ob_drop_front r).1 (send x true s).1 in
        replay send (suc b) r s ≡ (suc (t.0), t.1, t.2)
  unfolding replay
  replay_accepted b r x s e a = rw (e, a, replay) refl

module _ {S : Type 0} (send : TelemetryData → Bool → S → Bool × S) where
  -- A result of the replay: n packets, the first n of the queue, were accepted in order and only they
  -- have left the ring.
  abbrev pub Replayed : ℕ → Ring → List TelemetryData → ℕ × Ring × (S × List TelemetryData) → Type 0
  Replayed burst r log t =
      (t.0 ≤ burst)
      × IsRing (t.1)
      × (t.2.1 ≡ log ++ take (t.0) (contents r))
      × (contents (t.1) ≡ drop (t.0) (contents r))

  append_nil : (q : List TelemetryData) → q ++ [] ≡ q
  append_nil [] = refl
  append_nil (x ∷ q) = ap (λ t. x ∷ t) (append_nil q)

  append_assoc : (p q r : List TelemetryData) → (p ++ q) ++ r ≡ p ++ (q ++ r)
  append_assoc [] q r = refl
  append_assoc (x ∷ p) q r = ap (λ t. x ∷ t) (append_assoc p q r)

  logged_answer :
      (x : TelemetryData) (s : S) (log : List TelemetryData) (answer : Bool)
      → (send x true s).0 ≡ answer
      → (logged send x true (s, log)).1
        ≡ ((send x true s).1, if answer then log ++ (x ∷ []) else log)
  logged_answer x s log answer a =
      ap (λ b. ((send x true s).1, if b then log ++ (x ∷ []) else log)) a

  -- One turn, from what the rest of the turns do.
  turn_in_order :
      (b : ℕ) (r : Ring) (s : S) (log : List TelemetryData)
      → IsRing r
      → ((q : Ring) (s' : S) (l : List TelemetryData)
          → IsRing q
          → Replayed b q l (replay (logged send) b q (s', l)))
      → QueueView r
      → Replayed (suc b) r log (replay (logged send) (suc b) r (s, log))
  turn_in_order b r s log wf later (inl (c, e, p, o, d)) =
      subst (Replayed (suc b) r log) (sym (replay_empty (logged send) (suc b) r (s, log) p))
        (omega arith, wf, sym (append_nil log), refl)
  turn_in_order b r s log wf later (inr (x, q, c, wq, e, p, o, d)) =
      by_send (Bool-cases ((send x true s).0))
    where
      by_send :
          ((send x true s).0 ≡ true) ⊎ ((send x true s).0 ≡ false)
          → Replayed (suc b) r log (replay (logged send) (suc b) r (s, log))
      by_send (inr a) =
          subst (Replayed (suc b) r log)
            (sym (
              replay_refused (logged send) b r x (s, log) p a
              ∙ ap (λ t. (0, r, t)) (logged_answer x s log false a)))
            (omega arith, wf, sym (append_nil log), refl)
      by_send (inl a) =
          let t = replay (logged send) b q ((send x true s).1, log ++ (x ∷ [])) in
          let w = later q ((send x true s).1) (log ++ (x ∷ [])) wq in
          subst (Replayed (suc b) r log)
            (sym (
              replay_accepted (logged send) b r x (s, log) p a
              ∙ ap₂ (λ k l. let v = replay (logged send) b (k.1) l in (suc (v.0), v.1, v.2)) d
                  (logged_answer x s log true a)))
            (
              omega (arith, w.0),
              w.1,
              w.2
                  ∙ append_assoc log (x ∷ []) (take (t.0) (contents q))
                  ∙ ap (λ l. log ++ take (suc (t.0)) l) (sym c),
              w.3 ∙ ap (λ l. drop (suc (t.0)) l) (sym c),
            )

  -- With any callback: a replay of at most `burst` turns on a well-formed ring sends the oldest
  -- samples in their order, at most `burst` of them, and drops exactly those that were accepted.
  pub replay_in_order :
      (burst : ℕ) (r : Ring) (s : S) (log : List TelemetryData)
      → IsRing r
      → Replayed burst r log (replay (logged send) burst r (s, log))
  unfolding replay
  replay_in_order zero r s log wf = (omega arith, wf, sym (append_nil log), refl)
  replay_in_order (suc b) r s log wf =
      turn_in_order b r s log wf (λ q s' l wq. replay_in_order b q s' l wq) (front_agrees r wf).1

  -- What a tick does after n replays: nothing more, or the live packet is accepted too.
  abbrev pub Sent : Option TelemetryData → ℕ → List TelemetryData → ℕ → List TelemetryData → Type 0
  Sent live n replayed sent log =
      ((sent ≡ n) × (log ≡ replayed))
      ⊎ ((x : TelemetryData) × (live ≡ some x) × (sent ≡ n + 1) × (log ≡ replayed ++ (x ∷ [])))

  send_live-Sent :
      (live : Option TelemetryData) (n : ℕ) (s : S) (log : List TelemetryData)
      → let a = send_live (logged send) live (s, log) in Sent live n log (n + a.0) (a.1.1)
  unfolding send_live
  send_live-Sent none n s log = inl (omega arith, refl)
  send_live-Sent (some x) n s log = by_answer (send x false s).0
    where
      Answered : Bool → Type 0
      Answered b =
          Sent (some x) n log (n + (if b then 1 else 0)) (if b then log ++ (x ∷ []) else log)

      by_answer : (b : Bool) → Answered b
      by_answer true = inr (x, refl, refl, refl)
      by_answer false = inl (omega arith, refl)

  -- With any callback, in a tick with the link up, with at most `replay_burst_per_tick` replays, on a
  -- well-formed ring: for some n of at most that many, the n oldest samples are accepted in their order
  -- and only they leave the ring, and after them at most the live packet is accepted; the count returned
  -- is that of the packets accepted.
  pub tick_in_order :
      (live : Option TelemetryData) (u : UplinkScheduler) (r : Ring) (s : S)
      (log : List TelemetryData)
      → IsRing r
      → let t = on_tx_tick_link_up (logged send) live u r (s, log) in
        (n : ℕ) × (n ≤ u.replay_burst_per_tick)
        × IsRing (t.1)
        × (contents (t.1) ≡ drop n (contents r))
        × Sent live n (log ++ take n (contents r)) (t.0) (t.2.1)
  unfolding on_tx_tick_link_up
  tick_in_order live u r s log wf =
      let a = replay (logged send) u.replay_burst_per_tick r (s, log) in
      let w = replay_in_order u.replay_burst_per_tick r s log wf in
      (
        a.0,
        w.0,
        w.1,
        w.3,
        subst
            (λ l.
              Sent live (a.0) l (a.0 + (send_live (logged send) live (a.2)).0)
                ((send_live (logged send) live (a.2)).1.1))
            w.2 (send_live-Sent live (a.0) (a.2.0) (a.2.1)),
      )
