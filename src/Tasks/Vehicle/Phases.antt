-- ===== src/Tasks/Vehicle/Phases.antt =====
-- The places at which the tasks of ESP_AKS/src/main.cpp are cut, their variables, and what a step does apart from
-- the parts that the tasks share.
use tufan_aks.Base.{ℕ, Bool, true, false, List, [], ◌∷◌, ◌++◌, Option, some, ◌>>=◌}
use tufan_aks.Data.{TelemetryData}
use tufan_aks.Safety.{VcuState}
use tufan_aks.Can.{CanManager, send_torque_command}
use tufan_aks.Buffer.{new_ring}
use tufan_aks.Uplink.{UplinkScheduler}
use tufan_aks.Display.{Display, TouchRx}
use tufan_aks.Display.Helpers.{send_end_bytes}
use tufan_aks.Lora.{configure_e22}
use tufan_aks.Lora.Init.{begin_uart}
use tufan_aks.Tasks.Hmi.{Refresh}
use tufan_aks.Tasks.Radio.{Radio}
use tufan_aks.Tasks.Vehicle.Hardware.{Board}
use tufan_aks.Telemetry

-- Where `vTask_CAN_Comm` stands: before its set-up, before it reads the bus, in the callback with the events that
-- are still to be posted, before the snapshot is published, and deleted.
pub data CanTask : Type 0 where
  starting deleted : CanTask
  reading publishing : CanManager → CanTask
  posting : ℕ → CanManager → CanTask

-- Where `vTask_VCU_Logic` stands: the snapshot that has been peeked is local to the task.
pub data VcuTask : Type 0 where
  peeking running : VcuTask
  setting : TelemetryData → VcuTask

-- Where `vTask_HMI_Display` stands: before a turn of its set-up, before it peeks for the screen, before it reads the state
-- and then the contactors with what it has read so far, before it peeks for the pack, before it reads the
-- buttons, and asleep.
pub data HmiPhase : Type 0 where
  set_up show refreshing poll asleep : HmiPhase
  asking : Option TelemetryData → HmiPhase
  drawing : Option TelemetryData → VcuState → HmiPhase

-- The variables of `vTask_HMI_Display`; `rx` are the bytes that have arrived and are not yet read, and
-- `writes` what was written to the UART.
pub record HmiTask : Type 0 where
  pub phase : HmiPhase
  pub retry_count : ℕ
  pub display : Display
  pub touch : TouchRx
  pub refresh : Refresh
  pub rx : List ℕ
  pub writes : List (List ℕ)

pub data RadioTask (S : Type 0) : Type 0 where
  unset : S → RadioTask S
  disabled : S → RadioTask S
  sending : ℕ → Radio S → RadioTask S  -- the time of the boot

unfoldable pub new_scheduler : UplinkScheduler
new_scheduler = record {
  link_timeout = 9000;
  boot_grace = 5000;
  offline_sample_period = 1000;
  replay_burst_per_tick = 1;
  unknown_byte_warn_interval = 10000;
  link_down = false;
  last_heartbeat = 0;
  unknown_rx_byte_count = 0;
  last_unknown_rx_byte_warn = 0;
  last_offline_sample = 0;
  offline_first_ts = 0;
  offline_last_ts = 0;
  offline_has_samples = false;
}

-- `BMS_emitNextionCommand`, for each command.
pub emit_commands : List (List ℕ) → List (List ℕ) → List (List ℕ)
emit_commands [] writes = writes
emit_commands (c ∷ cs) writes = emit_commands cs (send_end_bytes (writes ++ (c ∷ [])))

-- The calls of the torque sink, with the manager to which the CAN task has set the pointer. Nothing is behind
-- it before the task's set-up, and nothing that can be relied on after the task is deleted.
abbrev pub call_sink : List ℕ → CanManager → CanManager
call_sink [] m = m
call_sink (t ∷ ts) m = call_sink ts (send_torque_command t m).1

unfoldable pub deliver_torque : List ℕ → CanTask → CanTask
deliver_torque ts starting = starting
deliver_torque ts deleted = deleted
deliver_torque ts (reading m) = reading (call_sink ts m)
deliver_torque ts (publishing m) = publishing (call_sink ts m)
deliver_torque ts (posting n m) = posting n (call_sink ts m)

module _ (H : Board) where
  -- `vTask_LoRa_UKS` before its loop, with the radio configured.
  unfoldable pub radio_start : H.Lora → RadioTask H.Lora
  radio_start s = sending (H.lora_hal.now_ms s) (record {
    scheduler = new_scheduler;
    ring = new_ring;
    tx = record {
      telemetry = Telemetry.begin (record { is_initialized = false; sequence_counter = 0 });
      aux_not_ready_logged = false;
      deferred_count = 0;
      hardware = s;
    };
    last_telemetry_tick = 0;
  })

  -- What the answer of the UART's set-up decides.
  unfoldable pub radio_ready : Bool → H.Lora → Option (RadioTask H.Lora)
  radio_ready false s = some (disabled s)
  radio_ready true s = do configured ← configure_e22 H.lora_hal s; some (radio_start configured)

  unfoldable pub radio_set_up : H.Lora → Option (RadioTask H.Lora)
  radio_set_up s = do answer ← begin_uart H.lora_uart s; radio_ready (answer.0) (answer.1)
