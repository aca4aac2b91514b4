-- ===== src/Vcu/Tests.antt =====
-- The state machine's theorems on RelayManager over a chip of registers, with a queue of eight.
use tufan_aks.Base.{◌≡◌, refl, ◌⊎◌, arith, true, false, some, none, List, [], ◌∷◌, ◌<◌}
use tufan_aks.Base.Words.{add32}
use tufan_aks.Safety.{
  VcuState, has_critical_condition, is_ready_entry_permitted, is_current_critical, is_temp_critical,
  cells_critical, reported_fault, has_warning_condition, is_current_warning, is_temp_warning,
  cells_warning,
}
use tufan_aks.Relay.{verify_if_due, has_actuator_fault}
use tufan_aks.Actuator.{RelayActuator}
use tufan_aks.Queue.{EventQueue}
use tufan_aks.Relay.Adapter.{relay_actuator}
use tufan_aks.Fixtures.{register_file, one_relay, list_queue, healthy}
use tufan_aks.Vcu.{
  VcuEvent, Machine, boot, init, run, post_event, next_event, transition_to, is_overriding, tick,
  run_estop, run_fault, run_actuator, run_critical, run_poll, log_warning, poll_event, periodic,
  handle, run_event, state_event, request_ready, handle_ready,
}
use tufan_aks.Vcu.Stop.{estop_opens, fault_served, run_entered_fault, after_estop, post_all}
use tufan_aks.Vcu.Recover.{run_reset, estop_then_reset}
use tufan_aks.Vcu.Edges.{Outcome, run-Outcome, run_drive, run_ready, ReadyBefore}
use tufan_aks.Vcu.Contactors.{Inv, Reach, here, next, do_run, do_post, act, reachable-Inv}

abbrev relays : RelayActuator
relays = relay_actuator register_file

abbrev queue : EventQueue VcuEvent
queue = list_queue {A = VcuEvent}

-- A machine that has been set up, in the state given, with the events given in its queue.
abbrev machine : VcuState → List VcuEvent → Machine relays queue
machine st q = record {
  state = st;
  event_queue = some q;
  state_timer = 0;
  uptime_ms = 4294967290;
  latest_data = healthy;
  warning_logged = false;
  data_mutex = true;
  estop_pending = false;
  fault_pending = false;
  relays = one_relay;
  relays_opened_in_estop = false;
  relays_opened_in_fault = false;
  last_estop_log_ms = 0;
  last_fault_log_ms = 0;
  last_ready_reject_reason = none;
  last_ready_reject_log_ms = 0;
  torque_sink = true;
  torque_requests = [];
}

abbrev driving : Machine relays queue
driving = machine VcuState.drive []

abbrev posts : List VcuEvent
posts = VcuEvent.drive_enable ∷ VcuEvent.start_request ∷ []

estop_opens_example :
    let t = after_estop relays queue posts driving in
    ((run relays queue t).state ≡ VcuState.emergency_stop)
    × ((((run relays queue (run relays queue t)).state ≡ VcuState.emergency_stop)
          × (RelayActuator.closed relays (run relays queue (run relays queue t)).relays 0 ≡ false))
        ⊎ ((t.fault_pending ≡ true) ⊎ (is_overriding (next_event relays queue t) ≡ true)))
estop_opens_example = estop_opens relays queue driving posts 0 (λ h. cc) (λ h. cc)

fault_served_example :
    let t = post_all relays queue posts (post_event relays queue VcuEvent.fault_detected driving) in
    ((t.estop_pending ≡ false) × ((run relays queue t).state ≡ VcuState.fault))
    ⊎ ((t.estop_pending ≡ true)
        × ((run relays queue t).state ≡ VcuState.emergency_stop)
        × ((run relays queue t).fault_pending ≡ true))
fault_served_example = fault_served relays queue driving posts (λ h. cc) (λ h. cc) (λ h. cc)

abbrev failed : Machine relays queue
failed = machine VcuState.fault (VcuEvent.start_request ∷ [])

run_entered_fault_example :
    ((run relays queue failed).state ≡ VcuState.fault)
    × (RelayActuator.closed relays (run relays queue failed).relays 3 ≡ false)
    × ((run relays queue failed).relays_opened_in_fault ≡ true)
    × ((run relays queue failed).torque_requests ≡ 0 ∷ [])
run_entered_fault_example = run_entered_fault relays queue failed 3 refl refl refl refl refl

abbrev stopped : Machine relays queue
stopped = machine VcuState.emergency_stop (VcuEvent.reset ∷ [])

run_reset_example :
    ((has_critical_condition healthy VcuState.emergency_stop ≡ true)
      × ((run relays queue stopped).state ≡ VcuState.emergency_stop))
    ⊎ ((has_critical_condition healthy VcuState.emergency_stop ≡ false)
        × ((run relays queue stopped).state ≡ VcuState.idle)
        × (RelayActuator.closed relays (run relays queue stopped).relays 0
            ≡ RelayActuator.closed relays one_relay 0)
        × (RelayActuator.has_actuator_fault relays (run relays queue stopped).relays ≡ false)
        × ((run relays queue stopped).torque_requests ≡ []))
run_reset_example = run_reset relays queue stopped 0 refl refl refl

abbrev stopping : Machine relays queue
stopping = record (machine VcuState.drive (VcuEvent.reset ∷ [])) { estop_pending = true }

healthy_in_estop : has_critical_condition healthy VcuState.emergency_stop ≡ false
unfolding has_critical_condition is_current_critical is_temp_critical cells_critical reported_fault
healthy_in_estop = refl

estop_then_reset_example :
    ((run relays queue (run relays queue stopping)).state ≡ VcuState.idle)
    × (RelayActuator.closed relays (run relays queue (run relays queue stopping)).relays 0
        ≡ RelayActuator.closed relays one_relay 0)
    × ((run relays queue (run relays queue stopping)).torque_requests ≡ [])
estop_then_reset_example =
    estop_then_reset relays queue stopping 0 refl (λ h. cc) refl refl healthy_in_estop

run-Outcome_example : Outcome relays queue stopping (run relays queue stopping)
run-Outcome_example = run-Outcome relays queue stopping

drive_stays : (run relays queue driving).state ≡ VcuState.drive
unfolding run tick run_estop run_fault run_actuator run_critical run_poll log_warning poll_event
    periodic handle verify_if_due has_actuator_fault has_critical_condition has_warning_condition
    is_current_critical is_temp_critical cells_critical reported_fault is_current_warning
    is_temp_warning cells_warning
drive_stays = refl

run_drive_example :
    ((VcuState.drive ≡ VcuState.drive) ⊎ (VcuState.drive ≡ VcuState.ready))
    × (driving.estop_pending ≡ false)
    × (driving.fault_pending ≡ false)
    × (has_critical_condition healthy VcuState.drive ≡ false)
    × (RelayActuator.has_actuator_fault relays
          (RelayActuator.verify_if_due relays (add32 driving.uptime_ms 20) one_relay)
        ≡ false)
run_drive_example = run_drive relays queue driving drive_stays

abbrev starting : Machine relays queue
starting = machine VcuState.idle (VcuEvent.start_request ∷ [])

start_ready : (run relays queue starting).state ≡ VcuState.ready
unfolding run tick run_estop run_fault run_actuator run_critical run_poll log_warning poll_event
    run_event state_event request_ready transition_to periodic handle handle_ready verify_if_due
    has_actuator_fault has_critical_condition has_warning_condition is_ready_entry_permitted
    is_current_critical is_temp_critical cells_critical reported_fault is_current_warning
    is_temp_warning cells_warning
start_ready = refl

run_ready_example : ReadyBefore relays queue starting
run_ready_example = run_ready relays queue starting start_ready

abbrev booted : Machine relays queue
booted = init relays queue (some []) true (boot relays queue one_relay)

in_range : 4 < 10
in_range = omega arith

abbrev started : Machine relays queue
started =
    act relays queue 4 in_range do_run
      (act relays queue 4 in_range (do_post VcuEvent.start_request) booted)

started-Reach : Reach relays queue 4 in_range booted started
started-Reach = next do_run (next (do_post VcuEvent.start_request) here)

reachable-Inv_example : Inv relays queue 4 in_range started
reachable-Inv_example = reachable-Inv relays queue 4 in_range [] one_relay refl started-Reach
