-- ===== src/Vcu.antt =====
-- The state machine of ESP_AKS/lib/VcuLogic/VcuLogic.cpp. Its file-scope variables are the record
-- `Vcu`; a function that changes them returns the new record. `run` is one 20 ms tick, cut at its
-- early returns into `run_estop`, `run_fault`, `run_actuator`, `run_critical` and `run_poll`.
-- Logging has no effect but on the variables that throttle it, which are kept.
pub mod Stages
pub mod Stop
pub mod Recover
pub mod Contactors
pub mod Edges
mod Tests
use tufan_aks.Base.{
  ℕ, ◌==◌, leb, Bool, true, false, not, ◌&&◌, ◌||◌, if◌then◌else◌, Option, none, some, List, [],
  ◌∷◌, ◌++◌,
}
use tufan_aks.Base.Words.{add32, sub32}
use tufan_aks.Config.{task_period_ms, vcu_contactor_open_delay_ms}
use tufan_aks.Data.{TelemetryData, zero_telemetry}
use tufan_aks.Safety.{
  VcuState, RejectReason, has_warning_condition, has_critical_condition,
  is_reset_interlock_satisfied, is_ready_entry_permitted, ready_reject_reason,
}
use tufan_aks.Actuator.{RelayActuator}
use tufan_aks.Queue.{EventQueue}

pub data VcuEvent : Type 0 where
  no_event start_request drive_enable emergency_stop fault_detected reset : VcuEvent

-- `event_queue` and `data_mutex` are the handles that may be null; `torque_sink` says whether a
-- sink is bound, and `torque_requests` are the calls made of it, oldest first.
pub record Vcu (Relays Handle : Type 0) : Type 0 where
  pub state : VcuState
  pub event_queue : Option Handle
  pub state_timer : ℕ  -- uint32
  pub uptime_ms : ℕ  -- uint32
  pub latest_data : TelemetryData
  pub warning_logged : Bool
  pub data_mutex : Bool
  pub estop_pending : Bool
  pub fault_pending : Bool
  pub relays : Relays
  pub relays_opened_in_estop : Bool
  pub relays_opened_in_fault : Bool
  pub last_estop_log_ms : ℕ  -- uint32
  pub last_fault_log_ms : ℕ  -- uint32
  pub last_ready_reject_reason : Option RejectReason
  pub last_ready_reject_log_ms : ℕ  -- uint32
  pub torque_sink : Bool
  pub torque_requests : List ℕ

abbrev pub is_estop : VcuState → Bool
is_estop VcuState.emergency_stop = true
is_estop _ = false

abbrev pub is_fault : VcuState → Bool
is_fault VcuState.fault = true
is_fault _ = false

-- READY or DRIVE: the HV bus is live
abbrev pub is_hv_live : VcuState → Bool
is_hv_live VcuState.ready = true
is_hv_live VcuState.drive = true
is_hv_live _ = false

-- IDLE, READY or DRIVE
abbrev pub is_monitored : VcuState → Bool
is_monitored VcuState.idle = true
is_monitored VcuState.ready = true
is_monitored VcuState.drive = true
is_monitored _ = false

-- The address of a reason's literal, for the source's comparison of pointers.
abbrev reason_id : RejectReason → ℕ
reason_id RejectReason.bms_data_invalid = 0
reason_id RejectReason.critical_active = 1
reason_id RejectReason.warning_active = 2
reason_id RejectReason.motor_data_invalid = 3
reason_id RejectReason.unknown = 4
reason_id RejectReason.actuator_fault = 5

abbrev pub same_reason : RejectReason → Option RejectReason → Bool
same_reason r none = false
same_reason r (some q) = reason_id r == reason_id q

-- `(uint32_t)-1000`
abbrev pub minus_1000 : ℕ
minus_1000 = 4294966296

-- The interval between two log lines has passed.
abbrev pub log_due : ℕ → ℕ → Bool
log_due now last = leb 1000 (sub32 now last)

module _ {Relays Handle : Type 0} where
  pub transition_to : VcuState → Vcu Relays Handle → Vcu Relays Handle
  transition_to VcuState.emergency_stop s = record s {
    state = VcuState.emergency_stop;
    state_timer = 0;
    relays_opened_in_estop = false;
    last_estop_log_ms = minus_1000;
  }
  transition_to VcuState.fault s = record s {
    state = VcuState.fault;
    state_timer = 0;
    relays_opened_in_fault = false;
    last_fault_log_ms = minus_1000;
  }
  transition_to next s = record s { state = next; state_timer = 0 }

  pub request_zero_torque : Vcu Relays Handle → Vcu Relays Handle
  request_zero_torque s =
      if s.torque_sink then record s { torque_requests = s.torque_requests ++ (0 ∷ []) } else s

  pub set_telemetry_data : TelemetryData → Vcu Relays Handle → Vcu Relays Handle
  set_telemetry_data d s = if s.data_mutex then record s { latest_data = d } else s

  pub set_torque_sink : Bool → Vcu Relays Handle → Vcu Relays Handle
  set_torque_sink bound s = record s { torque_sink = bound }

  pub tick : Vcu Relays Handle → Vcu Relays Handle
  tick s = record s {
    state_timer = add32 s.state_timer task_period_ms;
    uptime_ms = add32 s.uptime_ms task_period_ms;
  }

  pub log_warning : Vcu Relays Handle → Vcu Relays Handle
  log_warning s =
      if has_warning_condition s.latest_data
      then (if not s.warning_logged then record s { warning_logged = true } else s)
      else record s { warning_logged = false }

  pub log_reject : RejectReason → Vcu Relays Handle → Vcu Relays Handle
  log_reject reason s =
      if not (same_reason reason s.last_ready_reject_reason)
        || log_due s.state_timer s.last_ready_reject_log_ms
      then record s {
        last_ready_reject_reason = some reason;
        last_ready_reject_log_ms = s.state_timer;
      }
      else s

  pub log_estop : Vcu Relays Handle → Vcu Relays Handle
  log_estop s =
      if log_due s.state_timer s.last_estop_log_ms
      then record s { last_estop_log_ms = s.state_timer }
      else s

  pub log_fault : Vcu Relays Handle → Vcu Relays Handle
  log_fault s =
      if log_due s.state_timer s.last_fault_log_ms
      then record s { last_fault_log_ms = s.state_timer }
      else s

module _ (R : RelayActuator) (Q : EventQueue VcuEvent) where
  abbrev pub Machine : Type 0
  Machine = Vcu R.State Q.Handle

  -- The variables' initial values, with the actuator that `init` binds.
  pub boot : R.State → Machine
  boot relays = record {
    state = VcuState.init;
    event_queue = none;
    state_timer = 0;
    uptime_ms = 0;
    latest_data = zero_telemetry;
    warning_logged = false;
    data_mutex = false;
    estop_pending = false;
    fault_pending = false;
    relays = relays;
    relays_opened_in_estop = false;
    relays_opened_in_fault = false;
    last_estop_log_ms = 0;
    last_fault_log_ms = 0;
    last_ready_reject_reason = none;
    last_ready_reject_log_ms = 0;
    torque_sink = false;
    torque_requests = [];
  }

  -- `created` and `mutex` are what the two creating calls return.
  pub init : Option Q.Handle → Bool → Machine → Machine
  unfolding transition_to
  init none mutex s = record s { event_queue = none }
  init (some q) false s = record s { event_queue = some q; data_mutex = false }
  init (some q) true s =
      transition_to VcuState.idle
        (record s { event_queue = some q; data_mutex = true; relays = R.all_off false s.relays })

  pub handle_ready : Machine → Machine
  handle_ready s =
      if leb s.state_timer task_period_ms then record s { relays = R.all_on s.relays } else s

  pub open_in_estop : Machine → Machine
  open_in_estop s =
      if leb vcu_contactor_open_delay_ms s.state_timer
      then (if not s.relays_opened_in_estop
          then record s { relays = R.all_off false s.relays; relays_opened_in_estop = true }
          else if log_due s.state_timer s.last_estop_log_ms
          then record s { relays = R.all_off true s.relays }
          else s)
      else s

  pub handle_emergency_stop : Machine → Machine
  unfolding request_zero_torque open_in_estop log_estop
  handle_emergency_stop s =
      log_estop
        (open_in_estop (if leb s.state_timer task_period_ms then request_zero_torque s else s))

  pub open_in_fault : Machine → Machine
  open_in_fault s =
      if leb vcu_contactor_open_delay_ms s.state_timer
      then (if not s.relays_opened_in_fault
          then record s { relays = R.all_off false s.relays; relays_opened_in_fault = true }
          else if log_due s.state_timer s.last_fault_log_ms
          then record s { relays = R.all_off true s.relays }
          else s)
      else s

  pub handle_fault : Machine → Machine
  unfolding request_zero_torque open_in_fault log_fault
  handle_fault s =
      log_fault
        (open_in_fault (if leb s.state_timer task_period_ms then request_zero_torque s else s))

  -- The `switch` on the state at the end of `run`; IDLE and DRIVE do nothing.
  pub handle : VcuState → Machine → Machine
  handle VcuState.ready s = handle_ready s
  handle VcuState.emergency_stop s = handle_emergency_stop s
  handle VcuState.fault s = handle_fault s
  handle _ s = s

  pub periodic : Machine → Machine
  periodic s = handle s.state s

  -- START_REQUEST in IDLE
  pub request_ready : Machine → Machine
  unfolding transition_to log_reject
  request_ready s =
      let actuator_fault = R.has_actuator_fault s.relays in
      if is_ready_entry_permitted s.latest_data && not actuator_fault
      then transition_to VcuState.ready s
      else log_reject
          (if actuator_fault
            then RejectReason.actuator_fault
            else ready_reject_reason s.latest_data)
          s

  -- The `switch` on the state for the events that are not handled in every state.
  pub state_event : VcuState → VcuEvent → Machine → Machine
  unfolding request_ready transition_to
  state_event VcuState.idle VcuEvent.start_request s = request_ready s
  state_event VcuState.ready VcuEvent.drive_enable s = transition_to VcuState.drive s
  state_event _ _ s = s

  -- RESET in FAULT or EMERGENCY_STOP
  pub handle_reset : Machine → Machine
  unfolding transition_to
  handle_reset s =
      if not (is_reset_interlock_satisfied s.latest_data s.state)
      then s
      else transition_to VcuState.idle (record s { relays = R.clear_actuator_fault s.relays })

  -- What `run` does with an event taken from the queue.
  pub run_event : VcuEvent → Machine → Machine
  unfolding transition_to handle_reset state_event
  run_event VcuEvent.emergency_stop s = transition_to VcuState.emergency_stop s
  run_event VcuEvent.fault_detected s =
      if not (is_fault s.state) then transition_to VcuState.fault s else s
  run_event VcuEvent.reset s =
      if is_fault s.state || is_estop s.state then handle_reset s else periodic s
  run_event e s = periodic (state_event s.state e s)

  pub poll_event : Machine → Option (VcuEvent × Machine)
  poll_event s = elim s.event_queue [
    | none ↦ none
    | some q ↦ elim (Q.receive q) [
      | none ↦ none
      | some (e, q') ↦ some (e, record s { event_queue = some q' })
    ]
  ]

  pub run_poll : Machine → Machine
  run_poll s = elim (poll_event s) [ none ↦ periodic s | some (e, s') ↦ run_event e s' ]

  pub run_critical : Machine → Machine
  unfolding transition_to log_warning
  run_critical s =
      if is_monitored s.state && has_critical_condition s.latest_data s.state
      then transition_to VcuState.fault s
      else run_poll (log_warning s)

  pub run_actuator : Machine → Machine
  unfolding transition_to run_critical
  run_actuator s =
      let verified = record s { relays = R.verify_if_due s.uptime_ms s.relays } in
      if is_hv_live verified.state && R.has_actuator_fault verified.relays
      then transition_to VcuState.fault verified
      else run_critical verified

  pub run_fault : Machine → Machine
  unfolding transition_to run_actuator
  run_fault s =
      let taken = record s { fault_pending = false } in
      if s.fault_pending && not (is_fault s.state)
      then transition_to VcuState.fault taken
      else run_actuator taken

  pub run_estop : Machine → Machine
  unfolding transition_to run_fault
  run_estop s =
      let taken = record s { estop_pending = false } in
      if s.estop_pending && not (is_estop s.state)
      then transition_to VcuState.emergency_stop taken
      else run_fault taken

  pub run : Machine → Machine
  unfolding tick run_estop
  run s = run_estop (tick s)

  unfoldable pub post_to : VcuEvent → Q.Handle → Machine → Machine
  post_to VcuEvent.emergency_stop q s = record s { estop_pending = true }
  post_to VcuEvent.fault_detected q s = record s { fault_pending = true }
  post_to e q s = record s { event_queue = some (Q.send e q).1 }

  unfoldable pub post_event : VcuEvent → Machine → Machine
  unfolding post_to
  post_event e s = elim s.event_queue [ none ↦ s | some q ↦ post_to e q s ]

  -- The event that the next poll of the queue yields.
  abbrev pub next_event : Machine → VcuEvent
  next_event s = elim s.event_queue [
    | none ↦ VcuEvent.no_event
    | some q ↦ elim (Q.receive q) [ none ↦ VcuEvent.no_event | some (e, q') ↦ e ]
  ]

-- The events that can end or replace a safe state: those that a poll handles in every state.
abbrev pub is_overriding : VcuEvent → Bool
is_overriding VcuEvent.emergency_stop = true
is_overriding VcuEvent.fault_detected = true
is_overriding VcuEvent.reset = true
is_overriding _ = false
