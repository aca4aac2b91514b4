-- ===== src/Tasks/Vehicle/Budget.antt =====
-- The link budget of ESP_AKS/include/SystemConfig.h over time, under every order of the tasks' steps of
-- ESP_AKS/src/main.cpp.
use tufan_aks.Base.{
  ℕ, ◌+◌, ◌*◌, ◌%◌, ◌≡◌, ◌≤◌, refl, sym, ◌∙◌, subst, arith, List, [], ◌∷◌, none, All,
}
use tufan_aks.Base.Words.{u32_mod}
use tufan_aks.Vcu.{Machine}
use tufan_aks.Display.{Display}
use tufan_aks.Tasks.Transmit.Offer.{Offer, recorded}
use tufan_aks.Tasks.Transmit.Bytes.{total_bytes}
use tufan_aks.Tasks.Radio.{Radio, Round, round}
use tufan_aks.Tasks.Radio.Run.{SnapshotFits}
use tufan_aks.Tasks.Radio.Budget.{InBudget, offered, round-InBudget}
use tufan_aks.Tasks.Vehicle.Hardware.{Board}
use tufan_aks.Tasks.Vehicle.Phases.{VcuTask, sending, peeking, setting, running}
use tufan_aks.Tasks.Vehicle.{
  Vehicle, Action, do_can_set_up, do_can_receive, do_can_post, do_can_publish, do_vcu,
  do_hmi_set_up, do_hmi_show, do_hmi_poll, do_radio, step, steps, started, can_set_up,
  can_set_up_at, can_receive, can_receive_at, can_post, can_post_at, can_publish, can_publish_at,
  vcu_step, vcu_step_at, vcu_run, hmi_set_up, hmi_show, hmi_show_at, hmi_poll, hmi_poll_at,
  radio_step, radio_step_at,
}
use tufan_aks.Tasks.Vehicle.Recorded.{recorded_board}
use tufan_aks.Tasks.Vehicle.Fits.{RadioFits, IsFit, ActionFits}
use tufan_aks.Tasks.Vehicle.Rate.{step-IsFit, steps-IsFit}

module _ (H : Board) where
  -- A step from the tick c to the tick t: only a step of the radio task reads the count, which wraps.
  abbrev pub TimedStep : ℕ → Action (recorded_board H) → ℕ → Type 0
  TimedStep c (do_radio i) t = (c ≤ t) × (i.now_tick ≡ t % u32_mod)
  TimedStep c _ t = c ≡ t

  -- The steps lead from the tick c to the tick e.
  abbrev pub Timed : ℕ → List (Action (recorded_board H)) → ℕ → Type 0
  Timed c [] e = c ≤ e
  Timed c (a ∷ acts) e = (t : ℕ) × TimedStep c a t × Timed t acts e

  vcu-radio :
      (t : VcuTask) (v : Vehicle (recorded_board H))
      → (vcu_step_at (recorded_board H) t v).radio ≡ v.radio
  unfolding vcu_step_at vcu_run
  vcu-radio peeking v = refl
  vcu-radio (setting d) v = refl
  vcu-radio running v = refl

  IsOther : Action (recorded_board H) → Type 0
  IsOther (do_radio i) = ⊥
  IsOther _ = Unit

  other-radio :
      (a : Action (recorded_board H)) (v : Vehicle (recorded_board H))
      → IsOther a
      → (step (recorded_board H) a v).radio ≡ v.radio
  unfolding step IsOther can_set_up can_set_up_at can_receive can_receive_at can_post can_post_at
      can_publish can_publish_at vcu_step hmi_set_up hmi_show hmi_show_at hmi_poll hmi_poll_at
  other-radio (do_can_set_up created) v o = ground arith
  other-radio (do_can_receive now later alerts q) v o = ground arith
  other-radio do_can_post v o = ground arith
  other-radio (do_can_publish speed now_ms) v o = ground arith
  other-radio do_vcu v o = vcu-radio v.vcu_task v
  other-radio (do_hmi_set_up a b c late) v o = ground arith
  other-radio (do_hmi_show speed rpm now) v o = ground arith
  other-radio (do_hmi_poll arrived) v o = ground arith
  other-radio (do_radio i) v o = absurd o

  -- The account of the radio task on the board's period, for a burst of one packet.
  abbrev Account : ℕ → ℕ → ℕ → ℕ → Radio (H.Lora × List Offer) → Type 0
  Account boot k l0 c r = InBudget H.lora_port boot (H.ms_to_ticks 500) 1 k l0 c r

  -- The radio task is in its loop, with its account.
  abbrev Runs : ℕ → ℕ → ℕ → ℕ → Vehicle (recorded_board H) → Type 0
  Runs boot k l0 c v =
      (r : Radio (H.Lora × List Offer)) × (v.radio ≡ sending boot r) × Account boot k l0 c r

  other-Runs :
      (a : Action (recorded_board H)) (v : Vehicle (recorded_board H)) (boot k l0 c : ℕ)
      → IsOther a
      → Runs boot k l0 c v
      → Runs boot k l0 c (step (recorded_board H) a v)
  other-Runs a v boot k l0 c o (r, e, b) = (r, other-radio a v o ∙ e, b)

  radio-Runs :
      (i : Round) (v : Vehicle (recorded_board H)) (boot k l0 c t : ℕ)
      → IsFit H v
      → c ≤ t
      → i.now_tick ≡ t % u32_mod
      → Runs boot k l0 c v
      → Runs boot k l0 t (step (recorded_board H) (do_radio i) v)
  unfolding step radio_step radio_step_at
  radio-Runs i v boot k l0 c t (h, b, f) le n (r, e, account) =
      let j : Round = record i { snapshot = H.mailbox.peek v.box } in
      (
        round (recorded H.lora_port) boot (H.ms_to_ticks 500) j r,
        rw e refl,
        round-InBudget H.lora_port boot (H.ms_to_ticks 500) 1 j r k l0 c t (subst (RadioFits H) e f)
            b le n account,
      )

  step-Runs :
      (a : Action (recorded_board H)) (v : Vehicle (recorded_board H)) (boot k l0 c t : ℕ)
      → IsFit H v
      → TimedStep c a t
      → Runs boot k l0 c v
      → Runs boot k l0 t (step (recorded_board H) a v)
  unfolding IsOther
  step-Runs (do_radio i) v boot k l0 c t h (le, n) g = radio-Runs i v boot k l0 c t h le n g
  step-Runs a v boot k l0 c t h same g =
      other-Runs a v boot k l0 t tt (subst (λ d. Runs boot k l0 d v) same g)

  steps-Runs :
      (acts : List (Action (recorded_board H))) (v : Vehicle (recorded_board H)) (boot k l0 c e : ℕ)
      → All (ActionFits H) acts
      → IsFit H v
      → Timed c acts e
      → Runs boot k l0 c v
      → Runs boot k l0 e (steps (recorded_board H) acts v)
  unfolding steps
  steps-Runs [] v boot k l0 c e f h le (r, at, (l, lc, last, account)) =
      (r, at, (l, omega arith, last, account))
  steps-Runs (a ∷ acts) v boot k l0 c e (f, fs) h (t, now, ts) g =
      steps-Runs acts (step (recorded_board H) a v) boot k l0 t e fs (step-IsFit H a v f h) ts
        (step-Runs a v boot k l0 c t h now g)

  -- The radio keeps its link budget whatever arrives on the bus and in whatever order the tasks take their steps. From the
  -- start of the tasks with the mailbox empty, after any steps after which the radio task is in its loop with its last
  -- transmission at the tick l, and any further steps up to the tick e; if the frames' bytes are bytes and the speed and
  -- the time of the published snapshots are of 16 and 32 bits: the bytes that the further steps have offered to the UART,
  -- times the ticks of 500 milliseconds, are at most 216 times the ticks from l to e, which is two packets of 108
  -- bytes for each 500 milliseconds, also where the tick count wraps; and the radio task is still in its loop.
  pub vehicle_budget :
      (machine : Machine H.relays H.events) (bus : H.Bus) (box : H.mailbox.Box)
      (lora : H.Lora × List Offer) (display : Display)
      (acts more : List (Action (recorded_board H))) (boot l c e : ℕ)
      (r : Radio (H.Lora × List Offer))
      → H.mailbox.peek box ≡ none
      → All (ActionFits H) acts
      → All (ActionFits H) more
      → let v =
          steps (recorded_board H) acts (started (recorded_board H) bus box lora display machine) in
        v.radio ≡ sending boot r
        → r.last_telemetry_tick ≡ l % u32_mod
        → l ≤ c
        → Timed c more e
        → (r' : Radio (H.Lora × List Offer)) × ((steps (recorded_board H) more v).radio
            ≡ sending boot r')
          × (total_bytes r'.tx.hardware.1 * H.ms_to_ticks 500 + 216 * l
              ≤ total_bytes r.tx.hardware.1 * H.ms_to_ticks 500 + 216 * e)
  unfolding started offered
  vehicle_budget machine bus box lora display acts more boot l c e r p f g at last le ts =
      let v0 = started (recorded_board H) bus box lora display machine in
      let v = steps (recorded_board H) acts v0 in
      let h = steps-IsFit H acts v0 f (tt, subst SnapshotFits (sym p) tt, tt) in
      let w =
        steps-Runs more v boot (offered r * H.ms_to_ticks 500) l c e g h ts
          (r, at, (l, le, last, omega arith)) in
      (w.0, w.1, omega (arith, w.2.1, w.2.3))
