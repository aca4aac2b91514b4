-- ===== src/Vcu/Contactors.antt =====
-- What the contactors are commanded to in each state, over every run of the machine.
use tufan_aks.Base.{
  ℕ, ◌≡◌, refl, ◌<◌, ◌⊎◌, inl, inr, Bool, true, false, Option, none, some, arith, Option-cases,
  Bool-cases, ◌||◌,
}
use tufan_aks.Base.Words.{add32}
use tufan_aks.Data.{TelemetryData}
use tufan_aks.Safety.{VcuState}
use tufan_aks.Actuator.{RelayActuator}
use tufan_aks.Queue.{EventQueue}
use tufan_aks.Vcu.{
  VcuEvent, Machine, run, tick, run_estop, run_fault, run_actuator, run_critical, run_poll,
  poll_event, run_event, handle_reset, log_warning, is_estop, is_fault, is_hv_live, transition_to,
  state_event, request_ready, periodic, handle, handle_ready, handle_emergency_stop, handle_fault,
  post_event, set_telemetry_data, set_torque_sink, init, boot,
}

module _ (R : RelayActuator) (Q : EventQueue VcuEvent) (ch : ℕ) (in_range : ch < 10) where
  -- Channel `ch`, where the actuator has been set up: closed in READY and DRIVE, and open in
  -- EMERGENCY_STOP and FAULT from the tick in which the contactors were first opened.
  pub record Inv (s : Machine R Q) : Type 0 where
    pub usable : R.usable s.relays ≡ true
    pub live_closed : is_hv_live s.state ≡ true → R.closed s.relays ch ≡ true
    pub estop_open :
        s.state ≡ VcuState.emergency_stop
        → s.relays_opened_in_estop ≡ true
        → R.closed s.relays ch ≡ false
    pub fault_open :
        s.state ≡ VcuState.fault → s.relays_opened_in_fault ≡ true → R.closed s.relays ch ≡ false

  -- The invariant but for a READY that has just been entered, whose handler is still to run.
  record Inv' (s : Machine R Q) : Type 0 where
    usable : R.usable s.relays ≡ true
    live_closed :
        is_hv_live s.state ≡ true
        → (R.closed s.relays ch ≡ true) ⊎ ((s.state ≡ VcuState.ready) × (s.state_timer ≡ 0))
    estop_open :
        s.state ≡ VcuState.emergency_stop
        → s.relays_opened_in_estop ≡ true
        → R.closed s.relays ch ≡ false
    fault_open :
        s.state ≡ VcuState.fault → s.relays_opened_in_fault ≡ true → R.closed s.relays ch ≡ false

  handle_ready-Inv :
      (s : Machine R Q) → Inv' s → s.state ≡ VcuState.ready → Inv (handle_ready R Q s)
  unfolding handle_ready
  handle_ready-Inv s v st = ground (arith, R.all_on_closes s.relays ch, R.all_on_usable s.relays)

  handle_estop-Inv :
      (s : Machine R Q)
      → Inv' s
      → s.state ≡ VcuState.emergency_stop
      → Inv (handle_emergency_stop R Q s)
  unfolding handle_emergency_stop
  handle_estop-Inv s v st = ground (
    arith,
    R.all_off_opens false s.relays ch,
    R.all_off_opens true s.relays ch,
    R.all_off_usable false s.relays,
    R.all_off_usable true s.relays,
  )

  handle_fault-Inv :
      (s : Machine R Q) → Inv' s → s.state ≡ VcuState.fault → Inv (handle_fault R Q s)
  unfolding handle_fault
  handle_fault-Inv s v st = ground (
    arith,
    R.all_off_opens false s.relays ch,
    R.all_off_opens true s.relays ch,
    R.all_off_usable false s.relays,
    R.all_off_usable true s.relays,
  )

  handle-Inv : (st : VcuState) (s : Machine R Q) → Inv' s → s.state ≡ st → Inv (handle R Q st s)
  unfolding handle
  handle-Inv VcuState.ready s v e = handle_ready-Inv s v e
  handle-Inv VcuState.emergency_stop s v e = handle_estop-Inv s v e
  handle-Inv VcuState.fault s v e = handle_fault-Inv s v e
  handle-Inv _ s v e = ground arith

  periodic-Inv : (s : Machine R Q) → Inv' s → Inv (periodic R Q s)
  unfolding periodic
  periodic-Inv s v = handle-Inv s.state s v refl

  weaken : (s : Machine R Q) → Inv s → Inv' s
  weaken s v = ground arith

  -- A transition that does not enter READY or DRIVE asks nothing of the contactors.
  transition_to-Inv :
      (next : VcuState) (s : Machine R Q)
      → R.usable s.relays ≡ true
      → is_hv_live next ≡ false
      → Inv (transition_to next s)
  unfolding transition_to
  transition_to-Inv VcuState.emergency_stop s u n = ground arith
  transition_to-Inv VcuState.fault s u n = ground arith
  transition_to-Inv _ s u n = ground arith

  request_ready-Inv : (s : Machine R Q) → Inv s → Inv' (request_ready R Q s)
  unfolding request_ready
  request_ready-Inv s v = ground arith

  state_event-Inv :
      (st : VcuState) (e : VcuEvent) (s : Machine R Q)
      → Inv s
      → s.state ≡ st
      → Inv' (state_event R Q st e s)
  unfolding state_event
  state_event-Inv VcuState.idle VcuEvent.start_request s v h = request_ready-Inv s v
  state_event-Inv VcuState.ready VcuEvent.drive_enable s v h = ground arith
  state_event-Inv _ _ s v h = weaken s v

  handle_reset-Inv : (s : Machine R Q) → Inv s → Inv (handle_reset R Q s)
  unfolding handle_reset
  handle_reset-Inv s v = ground (arith, R.clear_usable s.relays)

  run_event-Inv : (e : VcuEvent) (s : Machine R Q) → Inv s → Inv (run_event R Q e s)
  unfolding run_event
  run_event-Inv VcuEvent.emergency_stop s v =
      transition_to-Inv VcuState.emergency_stop s v.usable refl
  run_event-Inv VcuEvent.fault_detected s v =
      ground (arith, transition_to-Inv VcuState.fault s v.usable refl)
  run_event-Inv VcuEvent.reset s v = elim (Bool-cases (is_fault s.state || is_estop s.state)) [
    | inl h ↦ rw h (handle_reset-Inv s v)
    | inr h ↦ rw h (periodic-Inv s (weaken s v))
  ]
  run_event-Inv VcuEvent.no_event s v = periodic-Inv _ (state_event-Inv s.state _ s v refl)
  run_event-Inv VcuEvent.start_request s v = periodic-Inv _ (state_event-Inv s.state _ s v refl)
  run_event-Inv VcuEvent.drive_enable s v = periodic-Inv _ (state_event-Inv s.state _ s v refl)

  poll_event-Inv :
      (s : Machine R Q) {e : VcuEvent} {s' : Machine R Q}
      → Inv s
      → poll_event R Q s ≡ some (e, s')
      → Inv s'
  unfolding poll_event
  poll_event-Inv s v h = ground arith

  run_poll-Inv : (s : Machine R Q) → Inv s → Inv (run_poll R Q s)
  unfolding run_poll
  run_poll-Inv s v = elim (Option-cases (poll_event R Q s)) [
    | inl e ↦ rw (e, run_poll) (periodic-Inv s (weaken s v))
    | inr (p, e) ↦ rw (e, run_poll) (run_event-Inv p.0 p.1 (poll_event-Inv s v e))
  ]

  log_warning-Inv : (s : Machine R Q) → Inv s → Inv (log_warning s)
  unfolding log_warning
  log_warning-Inv s v = ground arith

  run_critical-Inv : (s : Machine R Q) → Inv s → Inv (run_critical R Q s)
  unfolding run_critical
  run_critical-Inv s v = ground (
    arith,
    transition_to-Inv VcuState.fault s v.usable refl,
    run_poll-Inv (log_warning s) (log_warning-Inv s v),
  )

  verified-Inv :
      (s : Machine R Q) → Inv s → Inv (record s { relays = R.verify_if_due s.uptime_ms s.relays })
  verified-Inv s v =
      ground (arith, R.verify_keeps s.uptime_ms s.relays ch, R.verify_usable s.uptime_ms s.relays)

  run_actuator-Inv : (s : Machine R Q) → Inv s → Inv (run_actuator R Q s)
  unfolding run_actuator
  run_actuator-Inv s v =
      let t : Machine R Q = record s { relays = R.verify_if_due s.uptime_ms s.relays } in
      ground (
        arith,
        transition_to-Inv VcuState.fault t (verified-Inv s v).usable refl,
        run_critical-Inv t (verified-Inv s v),
      )

  run_fault-Inv : (s : Machine R Q) → Inv s → Inv (run_fault R Q s)
  unfolding run_fault
  run_fault-Inv s v =
      let t : Machine R Q = record s { fault_pending = false } in
      ground
        (arith, transition_to-Inv VcuState.fault t v.usable refl, run_actuator-Inv t (ground arith))

  -- One tick keeps the invariant, whatever the telemetry, the pending flags and the queue are.
  pub run-Inv : (s : Machine R Q) → Inv s → Inv (run R Q s)
  unfolding run tick run_estop
  run-Inv s v =
      let t : Machine R Q = record s {
        state_timer = add32 s.state_timer 20;
        uptime_ms = add32 s.uptime_ms 20;
        estop_pending = false;
      } in
      ground (
        arith,
        transition_to-Inv VcuState.emergency_stop t v.usable refl,
        run_fault-Inv t (ground arith),
      )

  post_event-Inv : (e : VcuEvent) (s : Machine R Q) → Inv s → Inv (post_event R Q e s)
  unfolding post_event
  post_event-Inv VcuEvent.emergency_stop s v = ground arith
  post_event-Inv VcuEvent.fault_detected s v = ground arith
  post_event-Inv _ s v = ground arith

  set_telemetry_data-Inv :
      (d : TelemetryData) (s : Machine R Q) → Inv s → Inv (set_telemetry_data d s)
  unfolding set_telemetry_data
  set_telemetry_data-Inv d s v = ground arith

  pub set_torque_sink-Inv : (b : Bool) (s : Machine R Q) → Inv s → Inv (set_torque_sink b s)
  unfolding set_torque_sink
  set_torque_sink-Inv b s v = ground arith

  -- What the tasks of the program do to the machine, in the order in which they do it.
  pub data Action : Type 0 where
    do_run : Action
    do_post : VcuEvent → Action
    do_set_telemetry : TelemetryData → Action
    do_set_sink : Bool → Action

  pub act : Action → Machine R Q → Machine R Q
  act do_run s = run R Q s
  act (do_post e) s = post_event R Q e s
  act (do_set_telemetry d) s = set_telemetry_data d s
  act (do_set_sink b) s = set_torque_sink b s

  pub data Reach (s : Machine R Q) : Machine R Q → Type 0 where
    here : Reach s s
    next : {t : Machine R Q} (a : Action) → Reach s t → Reach s (act a t)

  act-Inv : (a : Action) (s : Machine R Q) → Inv s → Inv (act a s)
  unfolding act
  act-Inv do_run s v = run-Inv s v
  act-Inv (do_post e) s v = post_event-Inv e s v
  act-Inv (do_set_telemetry d) s v = set_telemetry_data-Inv d s v
  act-Inv (do_set_sink b) s v = set_torque_sink-Inv b s v

  Reach-Inv : {s t : Machine R Q} → Inv s → Reach s t → Inv t
  Reach-Inv v here = v
  Reach-Inv v (next {t} a r) = act-Inv a t (Reach-Inv v r)

  pub init-Inv :
      (queue : Option Q.Handle) (mutex : Bool) (r : R.State)
      → R.usable r ≡ true
      → Inv (init R Q queue mutex (boot R Q r))
  unfolding init boot
  init-Inv none mutex r u = ground arith
  init-Inv (some q) false r u = ground arith
  init-Inv (some q) true r u = ground (arith, R.all_off_usable false r)

  -- After a successful `init` on an actuator that has been set up, and any sequence of ticks, posts,
  -- telemetry updates and sink bindings: in READY and DRIVE each of the ten channels is commanded
  -- closed, and in EMERGENCY_STOP and FAULT, from the tick that first opened them, commanded open.
  pub reachable-Inv :
      (q : Q.Handle) (r : R.State) {t : Machine R Q}
      → R.usable r ≡ true
      → Reach (init R Q (some q) true (boot R Q r)) t
      → Inv t
  reachable-Inv q r u w = Reach-Inv (init-Inv (some q) true r u) w
