-- ===== src/Vcu/Recover.antt =====
-- RESET: what it takes to leave a safe state, and what is left when it comes before the handler.
use tufan_aks.Base.{ℕ, ◌≡◌, ◌≢◌, ◌⊎◌, ◌∙◌, true, false, arith}
use tufan_aks.Safety.{VcuState, has_critical_condition, is_reset_interlock_satisfied}
use tufan_aks.Actuator.{RelayActuator}
use tufan_aks.Queue.{EventQueue}
use tufan_aks.Base.Words.{add32}
use tufan_aks.Vcu.{
  VcuEvent, Machine, run, run_poll, poll_event, run_event, handle_reset, log_warning, next_event,
}
use tufan_aks.Vcu.Stages.{prepared, run_before_estop, next_event-log_warning}
use tufan_aks.Vcu.Stop.{run_pending_estop, next_event-of}

module _ (R : RelayActuator) (Q : EventQueue VcuEvent) where
  -- RESET polled in a safe state with nothing critical: IDLE, the actuator fault cleared, and no
  -- command given to the contactors.
  run_poll_reset :
      (s : Machine R Q) (ch : ℕ)
      → (s.state ≡ VcuState.emergency_stop) ⊎ (s.state ≡ VcuState.fault)
      → next_event R Q s ≡ VcuEvent.reset
      → has_critical_condition s.latest_data s.state ≡ false
      → ((run_poll R Q s).state ≡ VcuState.idle)
        × (R.closed (run_poll R Q s).relays ch ≡ R.closed s.relays ch)
        × (R.has_actuator_fault (run_poll R Q s).relays ≡ false)
        × ((run_poll R Q s).torque_requests ≡ s.torque_requests)
  unfolding run_poll poll_event run_event handle_reset is_reset_interlock_satisfied
  run_poll_reset s ch st e ok = ground (arith, R.clear_keeps s.relays ch, R.clear_clears s.relays)

  -- RESET polled in a safe state while a critical condition holds is refused: the state stays.
  run_poll_refused :
      (s : Machine R Q)
      → (s.state ≡ VcuState.emergency_stop) ⊎ (s.state ≡ VcuState.fault)
      → next_event R Q s ≡ VcuEvent.reset
      → has_critical_condition s.latest_data s.state ≡ true
      → (run_poll R Q s).state ≡ s.state
  unfolding run_poll poll_event run_event handle_reset is_reset_interlock_satisfied
  run_poll_refused s st e bad = ground arith

  log_warning-same :
      (s : Machine R Q)
      → ((log_warning s).state ≡ s.state)
        × ((log_warning s).latest_data ≡ s.latest_data)
        × ((log_warning s).relays ≡ s.relays)
        × ((log_warning s).torque_requests ≡ s.torque_requests)
  unfolding log_warning
  log_warning-same s = ground arith

  -- RESET in EMERGENCY_STOP with no fault pending: the machine goes to IDLE exactly if nothing is
  -- critical, and stays where it is otherwise; where it leaves, the actuator's fault is cleared,
  -- no channel's command is changed and no torque is requested.
  pub run_reset :
      (s : Machine R Q) (ch : ℕ)
      → s.state ≡ VcuState.emergency_stop
      → s.fault_pending ≡ false
      → next_event R Q s ≡ VcuEvent.reset
      → ((has_critical_condition s.latest_data VcuState.emergency_stop ≡ true)
          × ((run R Q s).state ≡ VcuState.emergency_stop))
        ⊎ ((has_critical_condition s.latest_data VcuState.emergency_stop ≡ false)
            × ((run R Q s).state ≡ VcuState.idle)
            × (R.closed (run R Q s).relays ch ≡ R.closed s.relays ch)
            × (R.has_actuator_fault (run R Q s).relays ≡ false)
            × ((run R Q s).torque_requests ≡ s.torque_requests))
  run_reset s ch st f e =
      let t = log_warning (prepared R Q s) in
      rw (run_before_estop R Q s st f) (
        ground (
          arith,
          log_warning-same (prepared R Q s),
          next_event-log_warning R Q (prepared R Q s),
          run_poll_reset t ch,
          run_poll_refused t,
          R.verify_keeps (add32 s.uptime_ms 20) s.relays ch,
        ))

  -- An emergency stop is pending in another state, no fault is pending, a RESET is next in the
  -- queue and nothing is critical in EMERGENCY_STOP: two ticks later the machine is in IDLE, every
  -- channel is commanded as before the stop, so that one that was closed still is, and no torque
  -- request was made.
  pub estop_then_reset :
      (s : Machine R Q) (ch : ℕ)
      → s.estop_pending ≡ true
      → s.state ≢ VcuState.emergency_stop
      → s.fault_pending ≡ false
      → next_event R Q s ≡ VcuEvent.reset
      → has_critical_condition s.latest_data VcuState.emergency_stop ≡ false
      → ((run R Q (run R Q s)).state ≡ VcuState.idle)
        × (R.closed (run R Q (run R Q s)).relays ch ≡ R.closed s.relays ch)
        × ((run R Q (run R Q s)).torque_requests ≡ s.torque_requests)
  estop_then_reset s ch p ne f e ok =
      let (a, b, c, d, l, g, h, k, m, n, o) = run_pending_estop R Q s p ne in
      ground (arith, run_reset (run R Q s) ch a (g ∙ f) (next_event-of R Q (run R Q s) s h ∙ e))
