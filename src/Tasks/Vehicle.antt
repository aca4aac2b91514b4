-- ===== src/Tasks/Vehicle.antt =====
-- The four tasks of ESP_AKS/src/main.cpp at work together. They run on two cores with priorities, so that their
-- steps come in any order: a task is cut where it touches what another task can see, which is the mailbox
-- of snapshots, the state machine and its actuator, and a schedule is the list of the steps taken. A
-- step whose task is not at that point changes nothing.
pub mod Hardware
pub mod Phases
pub mod Order
pub mod Contactors
pub mod Stop
pub mod Fault
pub mod Recorded
pub mod Fits
pub mod Rate
pub mod Budget
mod Tests
use tufan_aks.Base.{
  ℕ, zero, suc, ◌+◌, ◌-◌, ◌==◌, leb, Bool, true, false, not, if◌then◌else◌, List, [], ◌∷◌, ◌++◌,
  Option, none, some, ◌>>=◌, length, drop,
}
use tufan_aks.Base.Words.{u64_mod}
use tufan_aks.Data.{TelemetryData}
use tufan_aks.Safety.{VcuState}
use tufan_aks.Vcu.{VcuEvent, Machine, boot, post_event, run, set_telemetry_data}
use tufan_aks.Can.{CanManager, new_manager, send_torque_command}
use tufan_aks.Can.Receive.{Alerts, RxResult, process_rx_messages}
use tufan_aks.Buffer.{new_ring}
use tufan_aks.Uplink.{UplinkScheduler}
use tufan_aks.Nextion.{new_cache}
use tufan_aks.Display.{Display, TouchRx, wait_header, update_screen}
use tufan_aks.Display.Helpers.{send_end_bytes}
use tufan_aks.Lora.{configure_e22}
use tufan_aks.Lora.Init.{begin_uart}
use tufan_aks.Tasks.Transmit.{TxContext}
use tufan_aks.Tasks.Hmi.{Refresh, map_vcu_state, screen_data, refresh_pack, poll_buttons}
use tufan_aks.Tasks.Radio.{Radio, Round, round}
use tufan_aks.Tasks.System.{snapshot_of, app_main}
use tufan_aks.Tasks.Vehicle.Hardware.{Board}
use tufan_aks.Tasks.Vehicle.Phases.{
  CanTask, VcuTask, HmiPhase, HmiTask, RadioTask, starting, deleted, reading, publishing, posting,
  peeking, running, setting, set_up, show, refreshing, poll, asleep, asking, drawing, unset,
  disabled, sending, new_scheduler, emit_commands, call_sink, deliver_torque, radio_start,
  radio_ready, radio_set_up,
}
use tufan_aks.Can.Begin
use tufan_aks.Display
use tufan_aks.Telemetry

module _ (H : Board) where
  pub record Vehicle : Type 0 where
    pub can : CanTask
    pub can_bus : H.Bus
    pub vcu_task : VcuTask
    pub vcu : Machine H.relays H.events
    pub box : H.mailbox.Box
    pub hmi : HmiTask
    pub radio : RadioTask H.Lora

  -- The set-up of `vTask_CAN_Comm`, and whether its mutex was created.
  pub can_set_up_at : CanTask → Bool → Vehicle → Vehicle
  can_set_up_at starting created v =
      let r = Begin.begin H.bus created (record new_manager { event_callback = true }) v.can_bus in
      record v { can = if r.0 then reading (r.1) else deleted; can_bus = r.2 }
  can_set_up_at _ created v = v

  pub can_set_up : Bool → Vehicle → Vehicle
  can_set_up created v = can_set_up_at v.can created v

  -- The frames are read; the manager calls back once for each fault event. Nothing else of the manager is seen by the
  -- other tasks, so that the calls stand after the drain.
  pub can_receive_at : CanTask → ℕ → ℕ → Option Alerts → List RxResult → Vehicle → Vehicle
  can_receive_at (reading m) now later alerts q v =
      let after = process_rx_messages H.ms_to_ticks now later alerts q m in
      record v { can = posting (after.fault_events - m.fault_events) after }
  can_receive_at _ now later alerts q v = v

  pub can_receive : ℕ → ℕ → Option Alerts → List RxResult → Vehicle → Vehicle
  can_receive now later alerts q v = can_receive_at v.can now later alerts q v

  pub can_post_at : CanTask → Vehicle → Vehicle
  can_post_at (posting zero m) v = record v { can = publishing m }
  can_post_at (posting (suc n) m) v = record v {
    can = posting n m;
    vcu = post_event H.relays H.events VcuEvent.fault_detected v.vcu;
  }
  can_post_at _ v = v

  pub can_post : Vehicle → Vehicle
  can_post v = can_post_at v.can v

  pub can_publish_at : CanTask → ℕ → ℕ → Vehicle → Vehicle
  can_publish_at (publishing m) speed now_ms v = record v {
    can = reading m;
    box = H.mailbox.overwrite (snapshot_of speed now_ms m) v.box;
  }
  can_publish_at _ speed now_ms v = v

  pub can_publish : ℕ → ℕ → Vehicle → Vehicle
  can_publish speed now_ms v = can_publish_at v.can speed now_ms v

  -- A tick, and the calls of the torque sink in it.
  pub vcu_run : Vehicle → Vehicle
  vcu_run v =
      let after = run H.relays H.events v.vcu in
      record v {
        vcu = after;
        vcu_task = peeking;
        can = deliver_torque (drop (length v.vcu.torque_requests) after.torque_requests) v.can;
      }

  pub vcu_step_at : VcuTask → Vehicle → Vehicle
  vcu_step_at peeking v = record v {
    vcu_task = elim (H.mailbox.peek v.box) [ none ↦ running | some d ↦ setting d ];
  }
  vcu_step_at (setting d) v = record v { vcu = set_telemetry_data d v.vcu; vcu_task = running }
  vcu_step_at running v = vcu_run v

  pub vcu_step : Vehicle → Vehicle
  vcu_step v = vcu_step_at v.vcu_task v

  -- A turn of the set-up of `vTask_HMI_Display`, with the answers of the driver: after five failures the task sleeps.
  pub hmi_set_up : Bool → Bool → Bool → List ℕ → Vehicle → Vehicle
  hmi_set_up param_config set_pin driver_install late v = elim v.hmi.phase [
    | set_up ↦
        (let r =
            Display.begin param_config set_pin driver_install late v.hmi.display v.hmi.writes
              v.hmi.rx in
          record v {
            hmi = record v.hmi {
              display = r.1;
              writes = r.2;
              rx = r.3;
              retry_count = if r.0 then v.hmi.retry_count else v.hmi.retry_count + 1;
              phase =
                  if r.0 then show else if leb 5 (v.hmi.retry_count + 1) then asleep else set_up;
            };
          })
    | _ ↦ v
  ]

  -- A step of the loop up to the buttons: the snapshot, the state, the contactors with the screen, or the pack with its
  -- own peek.
  pub hmi_show_at : HmiPhase → ℕ → ℕ → ℕ → Vehicle → Vehicle
  hmi_show_at show smoothed_speed smoothed_rpm now v = record v {
    hmi = record v.hmi { phase = asking (H.mailbox.peek v.box) };
  }
  hmi_show_at (asking snapshot) smoothed_speed smoothed_rpm now v = record v {
    hmi = record v.hmi { phase = drawing snapshot v.vcu.state };
  }
  hmi_show_at (drawing snapshot state) smoothed_speed smoothed_rpm now v =
      let screen =
        screen_data (map_vcu_state state) (H.all_closed v.vcu.relays) smoothed_speed smoothed_rpm
          snapshot in
      let d = update_screen screen v.hmi.display v.hmi.writes in
      record v { hmi = record v.hmi { phase = refreshing; display = d.0; writes = d.1 } }
  hmi_show_at refreshing smoothed_speed smoothed_rpm now v =
      let r = refresh_pack now (H.mailbox.peek v.box) v.hmi.refresh in
      record v {
        hmi = record v.hmi {
          phase = poll;
          refresh = r.0;
          writes = emit_commands r.1.commands v.hmi.writes;
        };
      }
  hmi_show_at _ smoothed_speed smoothed_rpm now v = v

  pub hmi_show : ℕ → ℕ → ℕ → Vehicle → Vehicle
  hmi_show smoothed_speed smoothed_rpm now v =
      hmi_show_at v.hmi.phase smoothed_speed smoothed_rpm now v

  -- The buttons, with what has arrived since.
  pub hmi_poll_at : HmiPhase → List ℕ → Vehicle → Vehicle
  hmi_poll_at poll arrived v =
      let r =
        poll_buttons H.relays H.events v.hmi.display (v.hmi.rx ++ arrived) v.hmi.touch v.vcu in
      record v { vcu = r.0; hmi = record v.hmi { phase = show; touch = r.1; rx = r.2 } }
  hmi_poll_at _ arrived v = v

  pub hmi_poll : List ℕ → Vehicle → Vehicle
  hmi_poll arrived v = hmi_poll_at v.hmi.phase arrived v

  -- A step of `vTask_LoRa_UKS`: its set-up, if that ends, or a round with what the mailbox holds.
  pub radio_step_at : RadioTask H.Lora → Round → Vehicle → Vehicle
  radio_step_at (unset s) i v = elim (radio_set_up H s) [
    | none ↦ v
    | some r ↦ record v { radio = r }
  ]
  radio_step_at (disabled s) i v = v
  radio_step_at (sending boot_ms r) i v = record v {
    radio = sending boot_ms (
        round H.lora_port boot_ms (H.ms_to_ticks 500) (record i { snapshot = H.mailbox.peek v.box })
          r);
  }

  pub radio_step : Round → Vehicle → Vehicle
  radio_step i v = radio_step_at v.radio i v

pub data Action (H : Board) : Type 0 where
  do_can_set_up : Bool → Action H
  do_can_receive : ℕ → ℕ → Option Alerts → List RxResult → Action H
  do_can_post : Action H
  do_can_publish : ℕ → ℕ → Action H
  do_vcu : Action H
  do_hmi_set_up : Bool → Bool → Bool → List ℕ → Action H
  do_hmi_show : ℕ → ℕ → ℕ → Action H
  do_hmi_poll : List ℕ → Action H
  do_radio : Round → Action H

module _ (H : Board) where
  pub step : Action H → Vehicle H → Vehicle H
  step (do_can_set_up created) v = can_set_up H created v
  step (do_can_receive now later alerts q) v = can_receive H now later alerts q v
  step do_can_post v = can_post H v
  step (do_can_publish speed now_ms) v = can_publish H speed now_ms v
  step do_vcu v = vcu_step H v
  step (do_hmi_set_up p s i late) v = hmi_set_up H p s i late v
  step (do_hmi_show speed rpm now) v = hmi_show H speed rpm now v
  step (do_hmi_poll arrived) v = hmi_poll H arrived v
  step (do_radio i) v = radio_step H i v

  pub steps : List (Action H) → Vehicle H → Vehicle H
  steps [] v = v
  steps (a ∷ rest) v = steps rest (step a v)

  -- The tasks as `app_main` starts them: the machine is what its set-up leaves.
  pub started : H.Bus → H.mailbox.Box → H.Lora → Display → Machine H.relays H.events → Vehicle H
  started bus box lora display machine = record {
    can = starting;
    can_bus = bus;
    vcu_task = peeking;
    vcu = machine;
    box = box;
    hmi = record {
      phase = set_up;
      retry_count = 0;
      display = display;
      touch = record { rx_state = wait_header; pending_cmd = 0 };
      refresh = record { hmi_cache = new_cache; last_cell_update_ms = 0; first_run = true };
      rx = [];
      writes = [];
    };
    radio = unset lora;
  }
