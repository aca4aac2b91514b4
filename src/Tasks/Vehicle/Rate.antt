-- ===== src/Tasks/Vehicle/Rate.antt =====
-- From the bus to the radio under every order of the tasks' steps of ESP_AKS/src/main.cpp: what the frames on the bus can
-- make the radio task offer to its UART.
use tufan_aks.Base.{
  ◌≡◌, refl, sym, subst, arith, Bool, true, false, List, [], ◌∷◌, Option, none, some, All,
  bind-some,
}
use tufan_aks.Vcu.{Machine}
use tufan_aks.Buffer.Refine.{new_ring-IsRing}
use tufan_aks.Telemetry
use mathlib.Core.Option.{some-injective}
use tufan_aks.Display.{Display}
use tufan_aks.Lora.{configure_e22}
use tufan_aks.Lora.Init.{begin_uart}
use tufan_aks.Tasks.Transmit.Offer.{Offer}
use tufan_aks.Tasks.Radio.{Round}
use tufan_aks.Tasks.Radio.Run.{SnapshotFits, WithinRate, round-Steps}
use tufan_aks.Tasks.Vehicle.Hardware.{Board}
use tufan_aks.Tasks.Vehicle.{
  Vehicle, Action, do_can_set_up, do_can_receive, do_can_post, do_can_publish, do_vcu,
  do_hmi_set_up, do_hmi_show, do_hmi_poll, do_radio, step, steps, started, can_set_up, can_receive,
  can_post, can_publish, vcu_step, hmi_poll, radio_step, radio_step_at,
}
use tufan_aks.Tasks.Vehicle.Phases.{
  RadioTask, unset, disabled, sending, new_scheduler, radio_start, radio_ready, radio_set_up,
}
use tufan_aks.Tasks.Vehicle.Recorded.{recorded_board}
use tufan_aks.Tasks.Vehicle.Fits.{
  RadioFits, IsFit, ActionFits, set_up-IsFit, receive-IsFit, post-IsFit, publish-IsFit, vcu-IsFit,
  Apart-IsFit, hmi_set_up-Apart, hmi_show-Apart, hmi_poll-Apart,
}

module _ (H : Board) where
  start-RadioFits : (s : H.Lora × List Offer) → RadioFits H (radio_start (recorded_board H) s)
  unfolding radio_start new_scheduler Telemetry.begin
  start-RadioFits s = (new_ring-IsRing, tt, (refl, omega arith), refl)

  ready-RadioFits :
      (ok : Bool) (s : H.Lora × List Offer) (t : RadioTask (H.Lora × List Offer))
      → radio_ready (recorded_board H) ok s ≡ some t
      → RadioFits H t
  unfolding radio_ready
  ready-RadioFits false s t e = subst (RadioFits H) (some-injective (disabled s) t e) tt
  ready-RadioFits true s t e =
      let (a, _, h) =
        bind-some (configure_e22 (recorded_board H).lora_hal s)
          (λ c. some (radio_start (recorded_board H) c)) t e in
      subst (RadioFits H) (some-injective (radio_start (recorded_board H) a) t h)
        (start-RadioFits a)

  set_up-RadioFits :
      (s : H.Lora × List Offer) (t : RadioTask (H.Lora × List Offer))
      → radio_set_up (recorded_board H) s ≡ some t
      → RadioFits H t
  unfolding radio_set_up
  set_up-RadioFits s t e =
      let (a, _, h) =
        bind-some (begin_uart (recorded_board H).lora_uart s)
          (λ r. radio_ready (recorded_board H) (r.0) (r.1)) t e in
      ready-RadioFits (a.0) (a.1) t h

  -- A round of the radio, as far as it is up, offers at most 216 bytes: a replayed packet and the live one.
  abbrev pub RadioRate : RadioTask (H.Lora × List Offer) → RadioTask (H.Lora × List Offer) → Type 0
  RadioRate (sending b r) (sending b' r') = WithinRate 1 r r'
  RadioRate _ _ = Unit

  answered :
      (o : Option (RadioTask (H.Lora × List Offer))) (v : Vehicle (recorded_board H))
      → ((t : RadioTask (H.Lora × List Offer)) → o ≡ some t → RadioFits H t)
      → IsFit H v
      → IsFit H (elim o [ none ↦ v | some r ↦ record v { radio = r } ])
  answered none v k h = h
  answered (some t) v k (h, b, r) = (h, b, k t refl)

  radio_at-IsFit :
      (t : RadioTask (H.Lora × List Offer)) (i : Round) (v : Vehicle (recorded_board H))
      → RadioFits H t
      → v.radio ≡ t
      → IsFit H v
      → IsFit H (radio_step_at (recorded_board H) t i v)
        × RadioRate t (radio_step_at (recorded_board H) t i v).radio
  unfolding radio_step_at
  radio_at-IsFit (unset s) i v g e h =
      (answered (radio_set_up (recorded_board H) s) v (set_up-RadioFits s) h, tt)
  radio_at-IsFit (disabled s) i v g e h = (h, tt)
  radio_at-IsFit (sending boot_ms r) i v g e (h, b, _) =
      let n : Round = record i { snapshot = H.mailbox.peek v.box } in
      let p = round-Steps H.lora_port boot_ms (H.ms_to_ticks 500) 1 n r g b in ((h, b, p.0), p.1)

  pub step-IsFit :
      (a : Action (recorded_board H)) (v : Vehicle (recorded_board H))
      → ActionFits H a
      → IsFit H v
      → IsFit H (step (recorded_board H) a v)
  unfolding step can_set_up can_receive can_post can_publish vcu_step hmi_poll radio_step
  step-IsFit (do_can_set_up created) v f h = set_up-IsFit H v.can created v h
  step-IsFit (do_can_receive now later alerts q) v f h =
      receive-IsFit H v.can now later alerts q v f (h.0) h
  step-IsFit do_can_post v f h = post-IsFit H v.can v (h.0) h
  step-IsFit (do_can_publish speed now_ms) v (s, t) h =
      publish-IsFit H v.can speed now_ms v s t (h.0) h
  step-IsFit do_vcu v f h = vcu-IsFit H v.vcu_task v h
  step-IsFit (do_hmi_set_up a b c late) v f h =
      Apart-IsFit H v _ (hmi_set_up-Apart H a b c late v) h
  step-IsFit (do_hmi_show speed rpm now) v f h =
      Apart-IsFit H v _ (hmi_show-Apart H speed rpm now v) h
  step-IsFit (do_hmi_poll arrived) v f h =
      Apart-IsFit H v _ (hmi_poll-Apart H v.hmi.phase arrived v) h
  step-IsFit (do_radio i) v f h = (radio_at-IsFit v.radio i v (h.2) refl h).0

  pub steps-IsFit :
      (acts : List (Action (recorded_board H))) (v : Vehicle (recorded_board H))
      → All (ActionFits H) acts
      → IsFit H v
      → IsFit H (steps (recorded_board H) acts v)
  unfolding steps
  steps-IsFit [] v f h = h
  steps-IsFit (a ∷ rest) v (f, fs) h =
      steps-IsFit rest (step (recorded_board H) a v) fs (step-IsFit a v f h)

  -- What arrives on the bus cannot flood the radio. From the start of the tasks with the mailbox empty, after any steps of the
  -- four tasks in any order, if the frames' bytes are bytes and the speed and the time of the published snapshots
  -- are of 16 and 32 bits: a further round of the radio task, whatever it receives and whatever the hardware
  -- answers, offers to the UART at most 108 bytes for each of two packets.
  pub vehicle-rate :
      (machine : Machine H.relays H.events) (bus : H.Bus) (box : H.mailbox.Box)
      (lora : H.Lora × List Offer) (display : Display) (acts : List (Action (recorded_board H)))
      (i : Round)
      → H.mailbox.peek box ≡ none
      → All (ActionFits H) acts
      → let v =
          steps (recorded_board H) acts (started (recorded_board H) bus box lora display machine) in
        RadioRate v.radio (step (recorded_board H) (do_radio i) v).radio
  unfolding step started radio_step
  vehicle-rate machine bus box lora display acts i e f =
      let v0 = started (recorded_board H) bus box lora display machine in
      let v = steps (recorded_board H) acts v0 in
      let h = steps-IsFit acts v0 f (tt, subst SnapshotFits (sym e) tt, tt) in
      (radio_at-IsFit v.radio i v (h.2) refl h).1
