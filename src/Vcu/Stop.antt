-- ===== src/Vcu/Stop.antt =====
-- The emergency stop and the detected fault of ESP_AKS/lib/VcuLogic/VcuLogic.cpp, from the post to
-- the commands of the contactors.
use tufan_aks.Base.{
  ℕ, ◌≡◌, ◌≢◌, ◌⊎◌, ◌∙◌, ◌++◌, inl, inr, Bool-cases, true, false, if◌then◌else◌, none, List, [],
  ◌∷◌, arith,
}
use tufan_aks.Safety.{VcuState}
use tufan_aks.Actuator.{RelayActuator}
use tufan_aks.Queue.{EventQueue}
use tufan_aks.Vcu.{
  VcuEvent, Machine, run, post_event, minus_1000, next_event, is_overriding, handle_emergency_stop,
  handle_fault, set_telemetry_data,
}
use tufan_aks.Data.{TelemetryData}
use tufan_aks.Vcu.Stages.{settled, settled-Settled, run_in_estop, run_in_fault}

module _ (R : RelayActuator) (Q : EventQueue VcuEvent) where
  -- A pending emergency stop is served first, whatever else is pending or queued: the tick enters
  -- EMERGENCY_STOP with the timer at 0, uses the request up and leaves the rest as it was.
  pub run_pending_estop :
      (s : Machine R Q)
      → s.estop_pending ≡ true
      → s.state ≢ VcuState.emergency_stop
      → ((run R Q s).state ≡ VcuState.emergency_stop)
        × ((run R Q s).state_timer ≡ 0)
        × ((run R Q s).estop_pending ≡ false)
        × ((run R Q s).relays_opened_in_estop ≡ false)
        × ((run R Q s).last_estop_log_ms ≡ minus_1000)
        × ((run R Q s).fault_pending ≡ s.fault_pending)
        × ((run R Q s).event_queue ≡ s.event_queue)
        × ((run R Q s).torque_sink ≡ s.torque_sink)
        × ((run R Q s).torque_requests ≡ s.torque_requests)
        × ((run R Q s).relays ≡ s.relays)
        × ((run R Q s).latest_data ≡ s.latest_data)
  unfolding run
  run_pending_estop s p ne = ground arith

  -- The tick after an entry into EMERGENCY_STOP: unless a fault is pending or the event polled is
  -- RESET, EMERGENCY_STOP or FAULT_DETECTED, it asks for zero torque, if a sink is bound, and every
  -- channel is commanded open.
  pub run_entered_estop :
      (s : Machine R Q) (ch : ℕ)
      → s.state ≡ VcuState.emergency_stop
      → s.state_timer ≡ 0
      → s.relays_opened_in_estop ≡ false
      → s.fault_pending ≡ false
      → is_overriding (next_event R Q s) ≡ false
      → ((run R Q s).state ≡ VcuState.emergency_stop)
        × (R.closed (run R Q s).relays ch ≡ false)
        × ((run R Q s).relays_opened_in_estop ≡ true)
        × ((run R Q s).torque_requests
            ≡ (if s.torque_sink then s.torque_requests ++ (0 ∷ []) else s.torque_requests))
  unfolding handle_emergency_stop
  run_entered_estop s ch st t o f e =
      rw (run_in_estop R Q s st f e)
        (ground (arith, settled-Settled R Q s, R.all_off_opens false (settled R Q s).relays ch))

  -- The tick after an entry into FAULT, with the timer at 0 and the contactors not yet opened:
  -- unless an emergency stop is pending or the event polled is RESET, EMERGENCY_STOP or
  -- FAULT_DETECTED, it asks for zero torque, if a sink is bound, and in the same tick every
  -- channel is commanded open.
  pub run_entered_fault :
      (s : Machine R Q) (ch : ℕ)
      → s.state ≡ VcuState.fault
      → s.state_timer ≡ 0
      → s.relays_opened_in_fault ≡ false
      → s.estop_pending ≡ false
      → is_overriding (next_event R Q s) ≡ false
      → ((run R Q s).state ≡ VcuState.fault)
        × (R.closed (run R Q s).relays ch ≡ false)
        × ((run R Q s).relays_opened_in_fault ≡ true)
        × ((run R Q s).torque_requests
            ≡ (if s.torque_sink then s.torque_requests ++ (0 ∷ []) else s.torque_requests))
  unfolding handle_fault
  run_entered_fault s ch st t o f e =
      rw (run_in_fault R Q s st f e)
        (ground (arith, settled-Settled R Q s, R.all_off_opens false (settled R Q s).relays ch))

  pub run_pending_fault :
      (s : Machine R Q)
      → s.fault_pending ≡ true
      → s.state ≢ VcuState.emergency_stop
      → s.state ≢ VcuState.fault
      → ((s.estop_pending ≡ false) × ((run R Q s).state ≡ VcuState.fault))
        ⊎ ((s.estop_pending ≡ true)
            × ((run R Q s).state ≡ VcuState.emergency_stop)
            × ((run R Q s).fault_pending ≡ true))
  unfolding run
  run_pending_fault s p ne nf = ground arith

  pub next_event-of :
      (s t : Machine R Q) → s.event_queue ≡ t.event_queue → next_event R Q s ≡ next_event R Q t
  next_event-of s t h = ground arith

  -- The calls of `postEvent` that other tasks make between two ticks, in order.
  unfoldable pub post_all : List VcuEvent → Machine R Q → Machine R Q
  post_all [] s = s
  post_all (e ∷ es) s = post_all es (post_event R Q e s)

  -- What a post leaves: only the queue's handle and the two pending flags can change, and those
  -- flags are never taken back.
  pub record Posted (s t : Machine R Q) : Type 0 where
    pub state_eq : t.state ≡ s.state
    pub timer_eq : t.state_timer ≡ s.state_timer
    pub relays_eq : t.relays ≡ s.relays
    pub opened_in_estop_eq : t.relays_opened_in_estop ≡ s.relays_opened_in_estop
    pub opened_in_fault_eq : t.relays_opened_in_fault ≡ s.relays_opened_in_fault
    pub queue_kept : s.event_queue ≢ none → t.event_queue ≢ none
    pub estop_kept : s.estop_pending ≡ true → t.estop_pending ≡ true
    pub fault_kept : s.fault_pending ≡ true → t.fault_pending ≡ true

  pub post_event-Posted : (e : VcuEvent) (s : Machine R Q) → Posted s (post_event R Q e s)
  unfolding post_event
  post_event-Posted VcuEvent.emergency_stop s = ground arith
  post_event-Posted VcuEvent.fault_detected s = ground arith
  post_event-Posted _ s = ground arith

  pub post_all-Posted : (es : List VcuEvent) (s : Machine R Q) → Posted s (post_all es s)
  unfolding post_all
  post_all-Posted [] s = ground arith
  post_all-Posted (e ∷ es) s =
      ground (arith, post_event-Posted e s, post_all-Posted es (post_event R Q e s))

  pub set_telemetry-Posted :
      (d : TelemetryData) (s : Machine R Q) → Posted s (set_telemetry_data d s)
  unfolding set_telemetry_data
  set_telemetry-Posted d s = ground arith

  pub Posted-refl : (s : Machine R Q) → Posted s s
  Posted-refl s = ground arith

  pub Posted-trans : (s t u : Machine R Q) → Posted s t → Posted t u → Posted s u
  Posted-trans s t u p q = record {
    state_eq = q.state_eq ∙ p.state_eq;
    timer_eq = q.timer_eq ∙ p.timer_eq;
    relays_eq = q.relays_eq ∙ p.relays_eq;
    opened_in_estop_eq = q.opened_in_estop_eq ∙ p.opened_in_estop_eq;
    opened_in_fault_eq = q.opened_in_fault_eq ∙ p.opened_in_fault_eq;
    queue_kept = λ h. q.queue_kept (p.queue_kept h);
    estop_kept = λ h. q.estop_kept (p.estop_kept h);
    fault_kept = λ h. q.fault_kept (p.fault_kept h);
  }

  pub post_estop :
      (s : Machine R Q)
      → s.event_queue ≢ none
      → (post_event R Q VcuEvent.emergency_stop s).estop_pending ≡ true
  unfolding post_event
  post_estop s q = ground arith

  pub post_fault :
      (s : Machine R Q)
      → s.event_queue ≢ none
      → (post_event R Q VcuEvent.fault_detected s).fault_pending ≡ true
  unfolding post_event
  post_fault s q = ground arith

  -- A snapshot changes neither the state nor what is pending.
  pub set_telemetry-keeps :
      (d : TelemetryData) (s : Machine R Q)
      → ((set_telemetry_data d s).state ≡ s.state)
        × ((set_telemetry_data d s).fault_pending ≡ s.fault_pending)
  unfolding set_telemetry_data
  set_telemetry-keeps d s = (ground arith, ground arith)

  -- The machine after an emergency stop and the further posts `es`.
  abbrev pub after_estop : List VcuEvent → Machine R Q → Machine R Q
  after_estop es s = post_all es (post_event R Q VcuEvent.emergency_stop s)

  -- An emergency stop is not lost. After it is posted, with the queue created, whatever the queue
  -- holds, full or not, and whatever is posted after it before the next tick, the next tick enters
  -- EMERGENCY_STOP from any other state; and one tick later the machine is still in EMERGENCY_STOP
  -- with every channel commanded open, unless a fault was pending or the event then next in the queue
  -- is a RESET, EMERGENCY_STOP or FAULT_DETECTED.
  pub estop_opens :
      (s : Machine R Q) (es : List VcuEvent) (ch : ℕ)
      → s.event_queue ≢ none
      → s.state ≢ VcuState.emergency_stop
      → let t = after_estop es s in
        ((run R Q t).state ≡ VcuState.emergency_stop)
        × ((((run R Q (run R Q t)).state ≡ VcuState.emergency_stop)
              × (R.closed (run R Q (run R Q t)).relays ch ≡ false))
            ⊎ ((t.fault_pending ≡ true) ⊎ (is_overriding (next_event R Q t) ≡ true)))
  estop_opens s es ch q ne =
      let s₁ = post_event R Q VcuEvent.emergency_stop s in
      let t = post_all es s₁ in
      let (a, b, c, d, e, g, h, _, _, _, _) =
        run_pending_estop t ((post_all-Posted es s₁).estop_kept (post_estop s q)) (
          rw
            (
              (post_all-Posted es s₁).state_eq,
              (post_event-Posted VcuEvent.emergency_stop s).state_eq,
            )
            ne) in
      (
        a,
        elim (Bool-cases t.fault_pending) [
          | inl f ↦ inr (inl f)
          | inr f ↦ elim (Bool-cases (is_overriding (next_event R Q t))) [
            | inl o ↦ inr (inr o)
            | inr quiet ↦
                let (i, j, _, _) =
                  run_entered_estop (run R Q t) ch a b d (g ∙ f)
                    (rw (next_event-of (run R Q t) t h) quiet) in
                inl (i, j)
          ]
        ],
      )

  -- A detected fault is not lost. After it is posted, with the queue created, in a state other
  -- than FAULT and EMERGENCY_STOP, whatever the queue holds and whatever is posted after it, the
  -- next tick leaves the machine in FAULT or, if an emergency stop is also pending, enters
  -- EMERGENCY_STOP and keeps the fault pending.
  pub fault_served :
      (s : Machine R Q) (es : List VcuEvent)
      → s.event_queue ≢ none
      → s.state ≢ VcuState.emergency_stop
      → s.state ≢ VcuState.fault
      → let t = post_all es (post_event R Q VcuEvent.fault_detected s) in
        ((t.estop_pending ≡ false) × ((run R Q t).state ≡ VcuState.fault))
        ⊎ ((t.estop_pending ≡ true)
            × ((run R Q t).state ≡ VcuState.emergency_stop)
            × ((run R Q t).fault_pending ≡ true))
  fault_served s es q ne nf =
      let s₁ = post_event R Q VcuEvent.fault_detected s in
      let t = post_all es s₁ in
      let same =
        (post_all-Posted es s₁).state_eq ∙ (post_event-Posted VcuEvent.fault_detected s).state_eq in
      run_pending_fault t ((post_all-Posted es s₁).fault_kept (post_fault s q)) (rw same ne)
        (rw same nf)
