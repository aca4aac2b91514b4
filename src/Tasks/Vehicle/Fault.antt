-- ===== src/Tasks/Vehicle/Fault.antt =====
-- A fault on the bus under every order of the tasks' steps of ESP_AKS/src/main.cpp.
use tufan_aks.Base.{
  false, inr, inl, true, ◌⊎◌, ℕ, zero, suc, ◌-◌, ◌<◌, ◌≡◌, ◌≢◌, refl, sym, ◌∙◌, subst, arith, List,
  [], ◌∷◌, Option, none, All,
}
use tufan_aks.Safety.{VcuState}
use tufan_aks.Vcu.{VcuEvent, Machine, post_event, run}
use tufan_aks.Vcu.Stop.{post_event-Posted, post_fault}
use tufan_aks.Can.{CanManager}
use tufan_aks.Can.Receive.{Alerts, RxResult, process_rx_messages}
use tufan_aks.Actuator.{RelayActuator}
use tufan_aks.Queue.{EventQueue}
use tufan_aks.Vcu.Stop.{run_pending_fault}
use tufan_aks.Tasks.Vehicle.Hardware.{Board}
use tufan_aks.Tasks.Vehicle.{
  Vehicle, Action, do_can_set_up, do_can_receive, do_can_post, do_can_publish, do_vcu,
  do_hmi_set_up, do_hmi_show, do_hmi_poll, do_radio, step, steps, can_receive, can_receive_at,
  radio_step_at, can_post, can_post_at, vcu_step, vcu_step_at, vcu_run, hmi_set_up, hmi_show,
  hmi_show_at, hmi_poll, hmi_poll_at, radio_step,
}
use tufan_aks.Tasks.Vehicle.Phases.{
  CanTask, VcuTask, starting, deleted, reading, posting, publishing, peeking, setting, running,
  deliver_torque,
}
use tufan_aks.Tasks.Vehicle.Order.{ticks, steps-Quiet, tick_runs}

module _ (R : RelayActuator) (Q : EventQueue VcuEvent) where
  -- What a tick makes of a fault that was posted: the machine is in FAULT, or an emergency stop was pending, too.
  abbrev pub Stopped : Machine R Q → Type 0
  Stopped s =
      (s.state ≡ VcuState.fault) ⊎ ((s.state ≡ VcuState.emergency_stop) × (s.fault_pending ≡ true))

  pending_stops :
      (s : Machine R Q)
      → s.fault_pending ≡ true
      → s.state ≢ VcuState.emergency_stop
      → s.state ≢ VcuState.fault
      → Stopped (run R Q s)
  pending_stops s p ne nf = by_stop (run_pending_fault R Q s p ne nf)
    where
      by_stop :
          ((s.estop_pending ≡ false) × ((run R Q s).state ≡ VcuState.fault))
            ⊎ ((s.estop_pending ≡ true)
                × ((run R Q s).state ≡ VcuState.emergency_stop)
                × ((run R Q s).fault_pending ≡ true))
          → Stopped (run R Q s)
      by_stop (inl (e, f)) = inl f
      by_stop (inr (e, f, g)) = inr (f, g)

-- The events that the callback is still to post.
abbrev pub to_post : CanTask → ℕ
to_post (posting n m) = n
to_post _ = 0

deliver-to_post : (ts : List ℕ) (c : CanTask) → to_post (deliver_torque ts c) ≡ to_post c
unfolding deliver_torque
deliver-to_post ts starting = refl
deliver-to_post ts deleted = refl
deliver-to_post ts (reading m) = refl
deliver-to_post ts (publishing m) = refl
deliver-to_post ts (posting n m) = refl

module _ (H : Board) where
  -- A step that is not the CAN task's.
  abbrev pub IsOther : Action H → Type 0
  IsOther (do_can_set_up c) = ⊥
  IsOther (do_can_receive n l a q) = ⊥
  IsOther do_can_post = ⊥
  IsOther (do_can_publish s n) = ⊥
  IsOther _ = Unit

  vcu_step_at-to_post :
      (t : VcuTask) (v : Vehicle H) → to_post (vcu_step_at H t v).can ≡ to_post v.can
  unfolding vcu_step_at vcu_run
  vcu_step_at-to_post peeking v = refl
  vcu_step_at-to_post (setting d) v = refl
  vcu_step_at-to_post running v = deliver-to_post _ v.can

  other-to_post :
      (a : Action H) (v : Vehicle H) → IsOther a → to_post (step H a v).can ≡ to_post v.can
  unfolding step vcu_step hmi_set_up hmi_show hmi_show_at hmi_poll hmi_poll_at radio_step
      radio_step_at
  other-to_post do_vcu v o = vcu_step_at-to_post v.vcu_task v
  other-to_post (do_hmi_set_up a b c late) v o = ground arith
  other-to_post (do_hmi_show speed rpm now) v o = ground arith
  other-to_post (do_hmi_poll arrived) v o = ground arith
  other-to_post (do_radio i) v o = ground arith
  other-to_post _ v o = absurd o

  others-to_post :
      (acts : List (Action H)) (v : Vehicle H)
      → All IsOther acts
      → to_post (steps H acts v).can ≡ to_post v.can
  unfolding steps
  others-to_post [] v o = refl
  others-to_post (a ∷ rest) v (o, os) = others-to_post rest (step H a v) os ∙ other-to_post a v o

  receive-to_post :
      (now later : ℕ) (alerts : Option Alerts) (q : List RxResult) (v : Vehicle H) (m : CanManager)
      → v.can ≡ reading m
      → to_post (step H (do_can_receive now later alerts q) v).can
        ≡ (process_rx_messages H.ms_to_ticks now later alerts q m).fault_events - m.fault_events
  unfolding step can_receive can_receive_at
  receive-to_post now later alerts q v m e = rw (e, can_receive_at) refl

  post_at-posts :
      (c : CanTask) (v : Vehicle H)
      → 0 < to_post c
      → (can_post_at H c v).vcu ≡ post_event H.relays H.events VcuEvent.fault_detected v.vcu
  unfolding can_post_at
  post_at-posts (posting (suc n) m) v h = refl
  post_at-posts (posting zero m) v h = absurd (omega arith)
  post_at-posts starting v h = absurd (omega arith)
  post_at-posts deleted v h = absurd (omega arith)
  post_at-posts (reading m) v h = absurd (omega arith)
  post_at-posts (publishing m) v h = absurd (omega arith)

  step-posts :
      (v : Vehicle H)
      → 0 < to_post v.can
      → (step H do_can_post v).vcu ≡ post_event H.relays H.events VcuEvent.fault_detected v.vcu
  unfolding step can_post
  step-posts v h = post_at-posts v.can v h

  posted_stops :
      (v : Vehicle H) (m : Machine H.relays H.events) (acts : List (Action H))
      → v.vcu ≡ post_event H.relays H.events VcuEvent.fault_detected m
      → m.event_queue ≢ none
      → m.state ≢ VcuState.emergency_stop
      → m.state ≢ VcuState.fault
      → ticks H acts v ≡ 0
      → (steps H acts v).vcu_task ≡ running
      → Stopped H.relays H.events (step H do_vcu (steps H acts v)).vcu
  posted_stops v m acts e q ne nf quiet r =
      let first = post_event-Posted H.relays H.events VcuEvent.fault_detected m in
      let later = steps-Quiet H acts v quiet in
      let u = (steps H acts v).vcu in
      let pending = later.fault_kept (rw e (post_fault H.relays H.events m q)) in
      let same : u.state ≡ m.state = later.state_eq ∙ rw e first.state_eq in
      subst (Stopped H.relays H.events) (sym (tick_runs H (steps H acts v) r)) (
        pending_stops H.relays H.events u pending (λ h. ne (sym same ∙ h)) (λ h. nf (sym same ∙ h)))

  -- The vehicle after the CAN task has read the bus, the steps `acts` of the other tasks, and one post.
  abbrev pub received :
      ℕ → ℕ → Option Alerts → List RxResult → List (Action H) → Vehicle H → Vehicle H
  received now later alerts q acts v = steps H acts (step H (do_can_receive now later alerts q) v)

  -- A fault on the bus stops the vehicle whatever the tasks do in between. With the CAN task about to
  -- read: if what it reads makes the manager report a fault, then after any steps of the other tasks in
  -- any order, ticks of the state machine among them, the callback posts; if then the event queue exists
  -- and the machine is in a state other than FAULT and EMERGENCY_STOP, after any further steps of the
  -- four tasks in any order with no tick of the state machine among them, its task running, the next
  -- tick leaves it in FAULT or, if an emergency stop is also pending, in EMERGENCY_STOP with the fault
  -- still pending.
  pub fault_in_any_order :
      (now later : ℕ) (alerts : Option Alerts) (q : List RxResult) (v : Vehicle H) (m : CanManager)
      (acts more : List (Action H))
      → v.can ≡ reading m
      → m.fault_events < (process_rx_messages H.ms_to_ticks now later alerts q m).fault_events
      → All IsOther acts
      → let u = received now later alerts q acts v in
        u.vcu.event_queue ≢ none
        → u.vcu.state ≢ VcuState.emergency_stop
        → u.vcu.state ≢ VcuState.fault
        → ticks H more (step H do_can_post u) ≡ 0
        → (steps H more (step H do_can_post u)).vcu_task ≡ running
        → Stopped H.relays H.events (step H do_vcu (steps H more (step H do_can_post u))).vcu
  fault_in_any_order now later alerts q v m acts more e grown others eq ne nf quiet r =
      let u = received now later alerts q acts v in
      let left = others-to_post acts (step H (do_can_receive now later alerts q) v) others in
      let here = receive-to_post now later alerts q v m e in
      posted_stops (step H do_can_post u) u.vcu more
        (step-posts u (omega (arith, left, here, grown))) eq ne nf quiet r
