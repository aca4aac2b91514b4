-- ===== src/Tasks/Radio/Run.antt =====
-- What stays true over all rounds of the radio task of ESP_AKS/src/main.cpp.
use tufan_aks.Base.{
  ℕ, zero, suc, leb, ◌+◌, ◌*◌, ◌≡◌, ◌≤◌, ◌==◌, refl, sym, ◌∙◌, subst, arith, Bool, true, false, not,
  if◌then◌else◌, List, [], ◌∷◌, ◌++◌, Option, none, some, All, drop, length,
}
use tufan_aks.Base.Words.{sub32}
use tufan_aks.Data.{TelemetryData}
use tufan_aks.Buffer.{Ring, ob_push, offline_should_sample}
use tufan_aks.Buffer.Refine.{IsRing, contents, push-contents, enqueue}
use tufan_aks.Uplink.{UplinkScheduler, on_rx_byte, update_link, offline_sample}
use tufan_aks.Telemetry.Frame.{Fits}
use tufan_aks.Tasks.Transmit.{TxPort}
use tufan_aks.Tasks.Transmit.Offer.{Offer, recorded, numbered, IsStarted, append_nil}
use tufan_aks.Tasks.Transmit.Bytes.{total_bytes}
use tufan_aks.Tasks.Transmit.Rate.{tick_offers}
use tufan_aks.Tasks.Radio.{
  Radio, Round, on_rx_bytes, sample_snapshot, send_snapshot, tx_tick, round, rounds,
}

-- The values of the snapshot, if there is one, are of the types of the source's fields.
abbrev pub SnapshotFits : Option TelemetryData → Type 0
SnapshotFits none = Unit
SnapshotFits (some d) = Fits d

abbrev pub RoundFits : Round → Type 0
RoundFits i = SnapshotFits i.snapshot

module _ {S : Type 0} where
  -- The ring is well formed, what it holds are values of the types of the source's fields, the sender is started, and the
  -- burst is that of the constructor.
  abbrev pub Inv : ℕ → Radio (S × List Offer) → Type 0
  Inv burst r =
      IsRing r.ring
      × All Fits (contents r.ring)
      × IsStarted r.tx
      × (r.scheduler.replay_burst_per_tick ≡ burst)

  -- A step from r to r' offers at most 108 bytes for each packet of a burst and one more.
  abbrev pub WithinRate : ℕ → Radio (S × List Offer) → Radio (S × List Offer) → Type 0
  WithinRate burst r r' =
      (new : List Offer) × (r'.tx.hardware.1 ≡ r.tx.hardware.1 ++ new)
      × (total_bytes new ≤ 108 * (burst + 1))

  no_bytes :
      (burst : ℕ) (r r' : Radio (S × List Offer))
      → r'.tx.hardware.1 ≡ r.tx.hardware.1
      → WithinRate burst r r'
  no_bytes burst r r' e = ([], e ∙ append_nil (r.tx.hardware.1), omega arith)

rx_keeps :
    (b t : ℕ) (u : UplinkScheduler)
    → (on_rx_byte b t u).replay_burst_per_tick ≡ u.replay_burst_per_tick
unfolding on_rx_byte
rx_keeps b t u = ground arith

rx_all_keeps :
    (bs : List (ℕ × ℕ)) (u : UplinkScheduler)
    → (on_rx_bytes bs u).replay_burst_per_tick ≡ u.replay_burst_per_tick
unfolding on_rx_bytes
rx_all_keeps [] u = refl
rx_all_keeps (b ∷ bs) u = rx_all_keeps bs (on_rx_byte (b.0) (b.1) u) ∙ rx_keeps (b.0) (b.1) u

link_keeps :
    (now boot : ℕ) (q : Ring) (u : UplinkScheduler)
    → (update_link now boot q u).1.replay_burst_per_tick ≡ u.replay_burst_per_tick
unfolding update_link
link_keeps now boot q u = ground arith

All-drop : (n : ℕ) (xs : List TelemetryData) → All Fits xs → All Fits (drop n xs)
All-drop zero xs h = h
All-drop (suc n) [] h = tt
All-drop (suc n) (x ∷ xs) (h, hs) = All-drop n xs hs

All-snoc :
    (xs : List TelemetryData) (x : TelemetryData) → All Fits xs → Fits x → All Fits (xs ++ (x ∷ []))
All-snoc [] x h f = (f, tt)
All-snoc (y ∷ xs) x (h, hs) f = (h, All-snoc xs x hs f)

enqueue-Fits :
    (x : TelemetryData) (q : List TelemetryData) → All Fits q → Fits x → All Fits (enqueue x q)
enqueue-Fits x q h f =
    All-snoc (if length q == 75 then drop 1 q else q) x (by_full (length q == 75)) f
  where
    by_full : (full : Bool) → All Fits (if full then drop 1 q else q)
    by_full true = All-drop 1 q h
    by_full false = h

-- What a sample keeps of the ring and the scheduler.
Sampled : UplinkScheduler → Bool × Ring × UplinkScheduler → Type 0
Sampled u o =
    IsRing (o.1)
    × All Fits (contents (o.1))
    × ((o.2).replay_burst_per_tick ≡ u.replay_burst_per_tick)

sample-Sampled :
    (now : ℕ) (d : TelemetryData) (q : Ring) (u : UplinkScheduler)
    → IsRing q
    → All Fits (contents q)
    → Fits d
    → Sampled u (offline_sample now d q u)
unfolding offline_sample Sampled
sample-Sampled now d q u wf h f =
    by_due (
      offline_should_sample now u.last_offline_sample u.offline_has_samples u.offline_sample_period)
  where
    pushed : IsRing (ob_push d q) × All Fits (contents (ob_push d q))
    pushed =
        let p = push-contents d q wf in
        (p.1, subst (All Fits) (sym (p.0)) (enqueue-Fits d (contents q) h f))

    sampled : UplinkScheduler
    sampled = record u {
      last_offline_sample = now;
      offline_first_ts = if not u.offline_has_samples then d.timestamp_ms else u.offline_first_ts;
      offline_has_samples = true;
      offline_last_ts = d.timestamp_ms;
    }

    by_due :
        (due : Bool) → Sampled u (if not due then (false, q, u) else (true, ob_push d q, sampled))
    by_due true = (pushed.0, pushed.1, refl)
    by_due false = (wf, h, refl)

module _ {S : Type 0} (port : TxPort S) (boot_ms period burst : ℕ) where
  -- A step that keeps the invariant and the rate.
  abbrev Steps : Radio (S × List Offer) → Radio (S × List Offer) → Type 0
  Steps r r' = Inv burst r' × WithinRate burst r r'

  sample-Steps :
      (i : Round) (r : Radio (S × List Offer))
      → Inv burst r
      → RoundFits i
      → Steps r (sample_snapshot (recorded port) boot_ms period i r)
  unfolding sample_snapshot Sampled
  sample-Steps i r (wf, h, s, b) f = by_snapshot i.snapshot f
    where
      after : Option TelemetryData → Radio (S × List Offer)
      after none = r
      after (some d) =
          let o = offline_sample i.sample_ms d r.ring r.scheduler in
          record r { ring = o.1; scheduler = o.2 }

      by_snapshot : (o : Option TelemetryData) → SnapshotFits o → Steps r (after o)
      by_snapshot none g = ((wf, h, s, b), no_bytes burst r r refl)
      by_snapshot (some d) g =
          let (w, k, e) = sample-Sampled i.sample_ms d r.ring r.scheduler wf h g in
          ((w, k, s, e ∙ b), no_bytes burst r r refl)

  send-Steps :
      (i : Round) (r : Radio (S × List Offer))
      → Inv burst r
      → RoundFits i
      → Steps r (send_snapshot (recorded port) boot_ms period i r)
  unfolding send_snapshot
  send-Steps i r (wf, h, s, b) f =
      let (n, ps, qs, e, l, m, z, t, c, w, (st, nb, lg), bytes) =
        tick_offers port i.snapshot r.scheduler r.ring r.tx wf h (live i.snapshot f) s in
      (
        (w, subst (All Fits) (sym c) (All-drop n (contents r.ring) h), st, b),
        (numbered r.tx.telemetry.sequence_counter (ps ++ qs), lg, omega (arith, bytes, b)),
      )
    where
      live : (o : Option TelemetryData) → SnapshotFits o → (x : TelemetryData) → o ≡ some x → Fits x
      live none g x e = absurd (ground (arith, e))
      live (some d) g x e = subst SnapshotFits e g

  tick-Steps :
      (i : Round) (r : Radio (S × List Offer))
      → Inv burst r
      → RoundFits i
      → Steps r (tx_tick (recorded port) boot_ms period i r)
  unfolding tx_tick
  tick-Steps i r v f =
      by_period (leb period (sub32 i.now_tick r.last_telemetry_tick)) r.scheduler.link_down
    where
      timed : Radio (S × List Offer)
      timed = record r { last_telemetry_tick = i.now_tick }

      by_period :
          (due down : Bool)
          → Steps r (
              if due
              then (if not down
                  then send_snapshot (recorded port) boot_ms period i timed
                  else sample_snapshot (recorded port) boot_ms period i timed)
              else r)
      by_period true true = sample-Steps i timed v f
      by_period true false = send-Steps i timed v f
      by_period false down = (v, no_bytes burst r r refl)

  pub round-Steps :
      (i : Round) (r : Radio (S × List Offer))
      → Inv burst r
      → RoundFits i
      → Steps r (round (recorded port) boot_ms period i r)
  unfolding round
  round-Steps i r (wf, h, s, b) f =
      let u = on_rx_bytes i.received r.scheduler in
      tick-Steps i (record r { scheduler = (update_link i.link_ms boot_ms r.ring u).1 })
        (wf, h, s, link_keeps i.link_ms boot_ms r.ring u ∙ rx_all_keeps i.received r.scheduler ∙ b)
        f

  rounds-Inv :
      (is : List Round) (r : Radio (S × List Offer))
      → Inv burst r
      → All RoundFits is
      → Inv burst (rounds (recorded port) boot_ms period is r)
  unfolding rounds
  rounds-Inv [] r v f = v
  rounds-Inv (i ∷ is) r v (f, fs) =
      rounds-Inv is (round (recorded port) boot_ms period i r) (round-Steps i r v f).0 fs

  -- The radio keeps its rate. From a radio with a well-formed ring, values of the types of the source's fields in it and
  -- a started sender, after any rounds and in any next one, whatever is received, whatever the clocks say and
  -- whatever the port answers, if each snapshot's values are of the types of the source's fields: the round offers to the UART at
  -- most 108 bytes for each packet of a replay burst and one more, and all of this still holds after it.
  pub rounds-rate :
      (is : List Round) (i : Round) (r : Radio (S × List Offer))
      → Inv burst r
      → All RoundFits is
      → RoundFits i
      → let before = rounds (recorded port) boot_ms period is r in
        let after = round (recorded port) boot_ms period i before in
        Inv burst after × WithinRate burst before after
  rounds-rate is i r v fs f =
      round-Steps i (rounds (recorded port) boot_ms period is r) (rounds-Inv is r v fs) f
