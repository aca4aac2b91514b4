-- ===== src/Vcu/Edges.antt =====
-- Which changes of state one tick can make, and under which conditions.
use tufan_aks.Base.{
  ◌≡◌, refl, ◌⊎◌, ◌∙◌, sym, inl, inr, true, false, some, arith, Option-cases, Bool-cases, ◌||◌,
}
use tufan_aks.Safety.{
  VcuState, has_critical_condition, is_ready_entry_permitted, is_reset_interlock_satisfied,
}
use tufan_aks.Base.Words.{add32}
use tufan_aks.Actuator.{RelayActuator}
use tufan_aks.Queue.{EventQueue}
use tufan_aks.Vcu.{
  VcuEvent, Machine, run, tick, run_estop, run_fault, run_actuator, run_critical, run_poll,
  poll_event, run_event, periodic, handle, log_warning, next_event, is_hv_live, is_monitored,
  request_ready, state_event, handle_reset, is_fault, is_estop, handle_ready, handle_emergency_stop,
  handle_fault,
}
use tufan_aks.Vcu.Stages.{prepared, next_event-log_warning}

module _ (R : RelayActuator) (Q : EventQueue VcuEvent) where
  -- What one tick may do to the state of `s`, with the outcome's state and relays.
  pub data Change (s : Machine R Q) (e : VcuEvent) (t : Machine R Q) : Type 0 where
    stay : t.state ≡ s.state → Change s e t
    stop : e ≡ VcuEvent.emergency_stop → t.state ≡ VcuState.emergency_stop → Change s e t
    fail : e ≡ VcuEvent.fault_detected → t.state ≡ VcuState.fault → Change s e t
    energise :
        s.state ≡ VcuState.idle
        → e ≡ VcuEvent.start_request
        → is_ready_entry_permitted s.latest_data ≡ true
        → R.has_actuator_fault s.relays ≡ false
        → t.state ≡ VcuState.ready
        → Change s e t
    go :
        s.state ≡ VcuState.ready
        → e ≡ VcuEvent.drive_enable
        → t.state ≡ VcuState.drive
        → Change s e t
    recover :
        (s.state ≡ VcuState.fault) ⊎ (s.state ≡ VcuState.emergency_stop)
        → e ≡ VcuEvent.reset
        → has_critical_condition s.latest_data s.state ≡ false
        → t.state ≡ VcuState.idle
        → Change s e t

  state-handle : (st : VcuState) (s : Machine R Q) → (handle R Q st s).state ≡ s.state
  unfolding handle handle_ready handle_emergency_stop handle_fault
  state-handle VcuState.ready s = ground arith
  state-handle VcuState.emergency_stop s = ground arith
  state-handle VcuState.fault s = ground arith
  state-handle _ s = refl

  state-periodic : (s : Machine R Q) → (periodic R Q s).state ≡ s.state
  unfolding periodic
  state-periodic s = state-handle s.state s

  Change-periodic :
      {s : Machine R Q} {e : VcuEvent} {t : Machine R Q}
      → Change s e t
      → Change s e (periodic R Q t)
  Change-periodic {t = t} (stay p) = stay (state-periodic t ∙ p)
  Change-periodic {t = t} (stop a p) = stop a (state-periodic t ∙ p)
  Change-periodic {t = t} (fail a p) = fail a (state-periodic t ∙ p)
  Change-periodic {t = t} (energise a b c d p) = energise a b c d (state-periodic t ∙ p)
  Change-periodic {t = t} (go a b p) = go a b (state-periodic t ∙ p)
  Change-periodic {t = t} (recover a b c p) = recover a b c (state-periodic t ∙ p)

  request_ready-Change :
      (s : Machine R Q)
      → s.state ≡ VcuState.idle
      → Change s VcuEvent.start_request (request_ready R Q s)
  unfolding request_ready
  request_ready-Change s st = grind (arith, stay, energise)

  state_event-Change :
      (st : VcuState) (e : VcuEvent) (s : Machine R Q)
      → s.state ≡ st
      → Change s e (state_event R Q st e s)
  unfolding state_event
  state_event-Change VcuState.idle VcuEvent.start_request s h = request_ready-Change s h
  state_event-Change VcuState.ready VcuEvent.drive_enable s h = go h refl refl
  state_event-Change _ _ s h = stay refl

  handle_reset-Change :
      (s : Machine R Q)
      → (s.state ≡ VcuState.fault) ⊎ (s.state ≡ VcuState.emergency_stop)
      → Change s VcuEvent.reset (handle_reset R Q s)
  unfolding handle_reset is_reset_interlock_satisfied
  handle_reset-Change s h = grind (arith, stay, recover)

  safe_state :
      (st : VcuState)
      → (is_fault st || is_estop st) ≡ true
      → (st ≡ VcuState.fault) ⊎ (st ≡ VcuState.emergency_stop)
  safe_state st h = ground arith

  run_event-Change : (e : VcuEvent) (s : Machine R Q) → Change s e (run_event R Q e s)
  unfolding run_event
  run_event-Change VcuEvent.emergency_stop s = stop refl refl
  run_event-Change VcuEvent.fault_detected s = grind (arith, stay, fail)
  run_event-Change VcuEvent.reset s = elim (Bool-cases (is_fault s.state || is_estop s.state)) [
    | inl h ↦ rw h (handle_reset-Change s (safe_state s.state h))
    | inr h ↦ rw h (stay (state-periodic s))
  ]
  run_event-Change VcuEvent.no_event s = Change-periodic (state_event-Change s.state _ s refl)
  run_event-Change VcuEvent.start_request s = Change-periodic (state_event-Change s.state _ s refl)
  run_event-Change VcuEvent.drive_enable s = Change-periodic (state_event-Change s.state _ s refl)

  -- Nothing that takes the machine to a safe state is found before the queue is polled.
  pub record IsCalm (s : Machine R Q) : Type 0 where
    pub no_estop : is_estop s.state ≡ false → s.estop_pending ≡ false
    pub no_fault : is_fault s.state ≡ false → s.fault_pending ≡ false
    pub outputs : is_hv_live s.state ≡ true → R.has_actuator_fault (prepared R Q s).relays ≡ false
    pub limits : is_monitored s.state ≡ true → has_critical_condition s.latest_data s.state ≡ false

  pub data Outcome (s t : Machine R Q) : Type 0 where
    stopped : s.estop_pending ≡ true → t.state ≡ VcuState.emergency_stop → Outcome s t
    fault_flag : s.fault_pending ≡ true → t.state ≡ VcuState.fault → Outcome s t
    fault_outputs :
        is_hv_live s.state ≡ true
        → R.has_actuator_fault (prepared R Q s).relays ≡ true
        → t.state ≡ VcuState.fault
        → Outcome s t
    fault_limits :
        is_monitored s.state ≡ true
        → has_critical_condition s.latest_data s.state ≡ true
        → t.state ≡ VcuState.fault
        → Outcome s t
    event : IsCalm s → Change (prepared R Q s) (next_event R Q s) t → Outcome s t

  Change-of :
      {s s' : Machine R Q} {e : VcuEvent} {t : Machine R Q}
      → s.state ≡ s'.state
      → s.latest_data ≡ s'.latest_data
      → s.relays ≡ s'.relays
      → Change s e t
      → Change s' e t
  Change-of a b c (stay p) = stay (p ∙ a)
  Change-of a b c (stop k p) = stop k p
  Change-of a b c (fail k p) = fail k p
  Change-of a b c (energise k l m n p) = energise (sym a ∙ k) l (rw (← b) m) (rw (← c) n) p
  Change-of a b c (go k l p) = go (sym a ∙ k) l p
  Change-of a b c (recover k l m p) = recover (rw (← a) k) l (rw (← a, ← b) m) p

  poll_event-next :
      (s : Machine R Q) {e : VcuEvent} {s' : Machine R Q}
      → poll_event R Q s ≡ some (e, s')
      → (next_event R Q s ≡ e)
        × (s'.state ≡ s.state)
        × (s'.latest_data ≡ s.latest_data)
        × (s'.relays ≡ s.relays)
  unfolding poll_event
  poll_event-next s h = ground arith

  run_poll-Change : (s : Machine R Q) → Change s (next_event R Q s) (run_poll R Q s)
  unfolding run_poll
  run_poll-Change s = elim (Option-cases (poll_event R Q s)) [
    | inl e ↦ rw (e, run_poll) (stay (state-periodic s))
    | inr (p, e) ↦
        let (n, a, b, c) = poll_event-next s e in
        rw (e, run_poll) (Change-of {s = p.1} a b c (rw n (run_event-Change p.0 p.1)))
  ]

  log_warning-same :
      (s : Machine R Q)
      → ((log_warning s).state ≡ s.state)
        × ((log_warning s).latest_data ≡ s.latest_data)
        × ((log_warning s).relays ≡ s.relays)
  unfolding log_warning
  log_warning-same s = ground arith

  polled-Change : (s : Machine R Q) → Change s (next_event R Q s) (run_poll R Q (log_warning s))
  polled-Change s =
      let (a, b, c) = log_warning-same s in
      Change-of {s = log_warning s} a b c
        (rw (← next_event-log_warning R Q s) (run_poll-Change (log_warning s)))

  run_critical-Outcome :
      (s : Machine R Q)
      → (is_estop s.state ≡ false → s.estop_pending ≡ false)
      → (is_fault s.state ≡ false → s.fault_pending ≡ false)
      → (is_hv_live s.state ≡ true → R.has_actuator_fault (prepared R Q s).relays ≡ false)
      → Outcome s (run_critical R Q (prepared R Q s))
  unfolding run_critical
  run_critical-Outcome s p q r = grind (arith, fault_limits, event, polled-Change (prepared R Q s))

  drive_before :
      (s t : Machine R Q)
      → t.state ≡ VcuState.drive
      → IsCalm s
      → Change (prepared R Q s) (next_event R Q s) t
      → ((s.state ≡ VcuState.drive) ⊎ (s.state ≡ VcuState.ready))
        × (s.estop_pending ≡ false)
        × (s.fault_pending ≡ false)
        × (has_critical_condition s.latest_data s.state ≡ false)
        × (R.has_actuator_fault (R.verify_if_due (add32 s.uptime_ms 20) s.relays) ≡ false)
  drive_before s t h c (stay p) = ground arith
  drive_before s t h c (go k l p) = ground arith
  drive_before s t h c (stop k p) = cc
  drive_before s t h c (fail k p) = cc
  drive_before s t h c (energise k l m n p) = cc
  drive_before s t h c (recover k l m p) = cc

  -- Every tick has one of these outcomes: an emergency stop or fault that was pending; FAULT, for an
  -- actuator fault in READY or DRIVE, or for a critical snapshot in IDLE, READY or DRIVE; else the
  -- effect of the one event polled, which can only stop, fail, start READY from IDLE if entry is
  -- permitted and the actuator has no fault, go from READY to DRIVE, or, with the reset interlock
  -- satisfied, recover from EMERGENCY_STOP or FAULT to IDLE.
  pub run-Outcome : (s : Machine R Q) → Outcome s (run R Q s)
  unfolding run tick run_estop run_fault run_actuator
  run-Outcome s = grind (arith, stopped, fault_flag, fault_outputs, run_critical-Outcome s)

  -- A machine that is in DRIVE after a tick was in READY or DRIVE before it, found no fault of the
  -- actuator and no critical condition, and served no pending stop or fault.
  pub run_drive :
      (s : Machine R Q)
      → (run R Q s).state ≡ VcuState.drive
      → ((s.state ≡ VcuState.drive) ⊎ (s.state ≡ VcuState.ready))
        × (s.estop_pending ≡ false)
        × (s.fault_pending ≡ false)
        × (has_critical_condition s.latest_data s.state ≡ false)
        × (R.has_actuator_fault (R.verify_if_due (add32 s.uptime_ms 20) s.relays) ≡ false)
  run_drive s h = elim (run-Outcome s) [
    | stopped p e ↦ cc
    | fault_flag p e ↦ cc
    | fault_outputs p q e ↦ cc
    | fault_limits p q e ↦ cc
    | event c ch ↦ drive_before s (run R Q s) h c ch
  ]

  -- The ways into READY: it was READY, or IDLE with START_REQUEST polled, entry permitted by the
  -- snapshot and no actuator fault after this tick's verification.
  abbrev pub ReadyBefore : Machine R Q → Type 0
  ReadyBefore s =
      (s.state ≡ VcuState.ready)
      ⊎ ((s.state ≡ VcuState.idle)
          × (next_event R Q s ≡ VcuEvent.start_request)
          × (is_ready_entry_permitted s.latest_data ≡ true)
          × (R.has_actuator_fault (R.verify_if_due (add32 s.uptime_ms 20) s.relays) ≡ false))

  ready_before :
      (s t : Machine R Q)
      → t.state ≡ VcuState.ready
      → Change (prepared R Q s) (next_event R Q s) t
      → ReadyBefore s
  ready_before s t h (stay p) = inl (sym p ∙ h)
  ready_before s t h (energise k l m n p) = inr (k, l, m, n)
  ready_before s t h (go k l p) = cc
  ready_before s t h (stop k p) = cc
  ready_before s t h (fail k p) = cc
  ready_before s t h (recover k l m p) = cc

  -- A machine that is in READY after a tick was in READY, or was in IDLE with a START_REQUEST next
  -- in its queue, a snapshot that permits entry and no actuator fault.
  pub run_ready : (s : Machine R Q) → (run R Q s).state ≡ VcuState.ready → ReadyBefore s
  run_ready s h = elim (run-Outcome s) [
    | stopped p e ↦ cc
    | fault_flag p e ↦ cc
    | fault_outputs p q e ↦ cc
    | fault_limits p q e ↦ cc
    | event c ch ↦ ready_before s (run R Q s) h ch
  ]
