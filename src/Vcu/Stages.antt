-- ===== src/Vcu/Stages.antt =====
-- `run` in the safe states EMERGENCY_STOP and FAULT: what the stages before the handler leave.
use tufan_aks.Base.{◌≡◌, ◌∙◌, ap, false, none, some, arith, Option-cases, inl, inr}
use tufan_aks.Base.Words.{add32}
use tufan_aks.Safety.{VcuState}
use tufan_aks.Actuator.{RelayActuator}
use tufan_aks.Queue.{EventQueue}
use tufan_aks.Vcu.{
  VcuEvent, Machine, run, tick, run_estop, run_fault, run_actuator, run_critical, run_poll,
  poll_event, run_event, periodic, handle, log_warning, next_event, is_overriding,
  handle_emergency_stop, handle_fault,
}

module _ (R : RelayActuator) (Q : EventQueue VcuEvent) where
  -- the flags taken and the outputs verified
  abbrev pub prepared : Machine R Q → Machine R Q
  prepared s = record s {
    state_timer = add32 s.state_timer 20;
    uptime_ms = add32 s.uptime_ms 20;
    estop_pending = false;
    fault_pending = false;
    relays = R.verify_if_due (add32 s.uptime_ms 20) s.relays;
  }

  polled : Machine R Q → Machine R Q
  polled s = elim (poll_event R Q s) [ none ↦ s | some (e, s') ↦ s' ]

  -- the machine as the handler of a safe state finds it
  pub settled : Machine R Q → Machine R Q
  unfolding polled log_warning poll_event
  settled s = polled (log_warning (prepared s))

  pub record Settled (s t : Machine R Q) : Type 0 where
    pub state_eq : t.state ≡ s.state
    pub timer_eq : t.state_timer ≡ add32 s.state_timer 20
    pub uptime_eq : t.uptime_ms ≡ add32 s.uptime_ms 20
    pub relays_eq : t.relays ≡ R.verify_if_due (add32 s.uptime_ms 20) s.relays
    pub estop_eq : t.estop_pending ≡ false
    pub fault_eq : t.fault_pending ≡ false
    pub in_estop_eq : t.relays_opened_in_estop ≡ s.relays_opened_in_estop
    pub in_fault_eq : t.relays_opened_in_fault ≡ s.relays_opened_in_fault
    pub estop_log_eq : t.last_estop_log_ms ≡ s.last_estop_log_ms
    pub fault_log_eq : t.last_fault_log_ms ≡ s.last_fault_log_ms
    pub sink_eq : t.torque_sink ≡ s.torque_sink
    pub torque_eq : t.torque_requests ≡ s.torque_requests
    pub data_eq : t.latest_data ≡ s.latest_data

  pub settled-Settled : (s : Machine R Q) → Settled s (settled s)
  unfolding settled
  settled-Settled s = ground arith

  pub next_event-log_warning : (s : Machine R Q) → next_event R Q (log_warning s) ≡ next_event R Q s
  unfolding log_warning
  next_event-log_warning s = ground arith

  poll_event-next :
      (s : Machine R Q) {e : VcuEvent} {s' : Machine R Q}
      → poll_event R Q s ≡ some (e, s')
      → (next_event R Q s ≡ e) × (s'.state ≡ s.state)
  unfolding poll_event
  poll_event-next s h = ground arith

  run_event_estop :
      (e : VcuEvent) (s : Machine R Q)
      → s.state ≡ VcuState.emergency_stop
      → is_overriding e ≡ false
      → run_event R Q e s ≡ handle_emergency_stop R Q s
  unfolding run_event periodic handle
  run_event_estop VcuEvent.no_event s st e = ground arith
  run_event_estop VcuEvent.start_request s st e = ground arith
  run_event_estop VcuEvent.drive_enable s st e = ground arith
  run_event_estop _ s st e = cc

  run_event_fault :
      (e : VcuEvent) (s : Machine R Q)
      → s.state ≡ VcuState.fault
      → is_overriding e ≡ false
      → run_event R Q e s ≡ handle_fault R Q s
  unfolding run_event periodic handle
  run_event_fault VcuEvent.no_event s st e = ground arith
  run_event_fault VcuEvent.start_request s st e = ground arith
  run_event_fault VcuEvent.drive_enable s st e = ground arith
  run_event_fault _ s st e = cc

  run_poll_estop :
      (s : Machine R Q)
      → s.state ≡ VcuState.emergency_stop
      → is_overriding (next_event R Q s) ≡ false
      → run_poll R Q s ≡ handle_emergency_stop R Q (polled s)
  unfolding run_poll polled periodic handle
  run_poll_estop s st quiet = elim (Option-cases (poll_event R Q s)) [
    | inl e ↦ rw (e, run_poll, polled) (ap (λ x. handle R Q x s) st)
    | inr (p, e) ↦
        let (n, k) = poll_event-next s e in
        rw (e, run_poll, polled) (run_event_estop p.0 p.1 (k ∙ st) (rw (← n) quiet))
  ]

  run_poll_fault :
      (s : Machine R Q)
      → s.state ≡ VcuState.fault
      → is_overriding (next_event R Q s) ≡ false
      → run_poll R Q s ≡ handle_fault R Q (polled s)
  unfolding run_poll polled periodic handle
  run_poll_fault s st quiet = elim (Option-cases (poll_event R Q s)) [
    | inl e ↦ rw (e, run_poll, polled) (ap (λ x. handle R Q x s) st)
    | inr (p, e) ↦
        let (n, k) = poll_event-next s e in
        rw (e, run_poll, polled) (run_event_fault p.0 p.1 (k ∙ st) (rw (← n) quiet))
  ]

  pub run_before_estop :
      (s : Machine R Q)
      → s.state ≡ VcuState.emergency_stop
      → s.fault_pending ≡ false
      → run R Q s ≡ run_poll R Q (log_warning (prepared s))
  unfolding run tick run_estop run_fault run_actuator run_critical
  run_before_estop s st f = ground arith

  pub run_before_fault :
      (s : Machine R Q)
      → s.state ≡ VcuState.fault
      → s.estop_pending ≡ false
      → run R Q s ≡ run_poll R Q (log_warning (prepared s))
  unfolding run tick run_estop run_fault run_actuator run_critical
  run_before_fault s st f = ground arith

  quiet_after :
      (s : Machine R Q)
      → is_overriding (next_event R Q s) ≡ false
      → is_overriding (next_event R Q (log_warning (prepared s))) ≡ false
  quiet_after s quiet = rw (next_event-log_warning (prepared s)) quiet

  state-log_warning : (s : Machine R Q) → (log_warning s).state ≡ s.state
  unfolding log_warning
  state-log_warning s = ground arith

  -- A tick in EMERGENCY_STOP with no fault pending and no overriding event is its handler.
  pub run_in_estop :
      (s : Machine R Q)
      → s.state ≡ VcuState.emergency_stop
      → s.fault_pending ≡ false
      → is_overriding (next_event R Q s) ≡ false
      → run R Q s ≡ handle_emergency_stop R Q (settled s)
  unfolding settled
  run_in_estop s st f quiet =
      run_before_estop s st f
      ∙ run_poll_estop (log_warning (prepared s)) (state-log_warning (prepared s) ∙ st)
          (quiet_after s quiet)

  -- A tick in FAULT with no emergency stop pending and no overriding event is its handler.
  pub run_in_fault :
      (s : Machine R Q)
      → s.state ≡ VcuState.fault
      → s.estop_pending ≡ false
      → is_overriding (next_event R Q s) ≡ false
      → run R Q s ≡ handle_fault R Q (settled s)
  unfolding settled
  run_in_fault s st f quiet =
      run_before_fault s st f
      ∙ run_poll_fault (log_warning (prepared s)) (state-log_warning (prepared s) ∙ st)
          (quiet_after s quiet)
