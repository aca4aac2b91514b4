-- ===== src/Tasks/Vehicle/Tests.antt =====
-- The tasks' interleavings with relays over a chip of registers, a queue of eight events, a bus of 500 kbit/s and a radio
-- whose hardware is a clock.
mod Loud
use tufan_aks.Base.{
  ℕ, ◌+◌, ◌%◌, ◌≡◌, ◌⊎◌, inl, refl, ◌∙◌, arith, leb, true, false, List, [], ◌∷◌, Option, none, some,
}
use tufan_aks.Base.Int.{pos}
use tufan_aks.Base.Words.{u64_mod}
use tufan_aks.Data.{TelemetryData}
use tufan_aks.Safety.{VcuState}
use tufan_aks.Relay.Adapter.{relay_actuator}
use tufan_aks.Fixtures.{register_file, one_relay, list_queue, healthy, extended_frame}
use tufan_aks.Vcu.{VcuEvent, Machine, boot, init, set_torque_sink, next_event, is_overriding}
use tufan_aks.Can.Sample.{started, high_frames, high-reported}
use tufan_aks.Display.{Display, wait_checksum}
use tufan_aks.Display.Helpers.{HmiVcuState}
use tufan_aks.Display.Touch.{touch_frame}
use tufan_aks.Nextion.{new_cache}
use tufan_aks.Tasks.System.{app_main}
use tufan_aks.Tasks.Vehicle.Hardware.{Board}
use tufan_aks.Tasks.Vehicle.{
  Vehicle, Action, do_can_set_up, do_radio, do_can_receive, do_can_post, do_can_publish, do_vcu,
  do_hmi_show, do_hmi_poll, step, steps, can_receive, can_publish, can_publish_at, can_receive_at,
  vcu_step, vcu_step_at, vcu_run, hmi_poll, hmi_poll_at,
}
use tufan_aks.Tasks.Vehicle.Phases.{reading, publishing, peeking, running, poll, disabled}
use tufan_aks.Tasks.Vehicle.Order.{ticks, step_post-task}
use tufan_aks.Tasks.Vehicle.Contactors.{IsSafe, vehicle-IsSafe}
use tufan_aks.Tasks.Vehicle.Stop.{first_tick, stop_in_any_order}
use tufan_aks.Tasks.Vehicle.Recorded.{recorded_board}
use tufan_aks.Tasks.Vehicle.Rate.{RadioRate, vehicle-rate}
use tufan_aks.Parse.Fields.{AreBytes}
use tufan_aks.Can.Receive.{RxResult}
use tufan_aks.Tasks.Radio.{Round}
use tufan_aks.Base.{◌*◌, ◌≤◌}
use tufan_aks.Buffer.{new_ring}
use tufan_aks.E22.{parse_reg_response}
use tufan_aks.Lora.{
  configure_e22, wait_aux_ready, wait_aux_from, read_and_repair, needs_write, write_contract,
  send_command,
}
use tufan_aks.Lora.Init.{begin_uart, attempt, init_loop}
use tufan_aks.Tasks.Transmit.Offer.{Offer}
use tufan_aks.Tasks.Transmit.Bytes.{total_bytes}
use tufan_aks.Tasks.Radio.{Radio}
use tufan_aks.Tasks.Vehicle.{radio_step, radio_step_at}
use tufan_aks.Tasks.Vehicle.Phases.{sending, new_scheduler, radio_set_up, radio_ready, radio_start}
use tufan_aks.Tasks.Vehicle.Budget.{vehicle_budget}
use tufan_aks.Tasks.Vehicle.Fault.{Stopped, received, fault_in_any_order}
use tufan_aks.Tasks.Vehicle

abbrev board : Board
board = record {
  relays = relay_actuator register_file;
  events = list_queue {A = VcuEvent};
  mailbox = record {
    Box = Option TelemetryData;
    overwrite = λ d b. some d;
    peek = λ b. b;
    peek-overwrite = λ d b. refl;
  };
  ms_to_ticks = λ ms. ms;
  Bus = ℕ;
  bus = record {
    driver_install = λ b s. (true, b);
    start = λ s. (true, s);
    receive = λ s. (true, s);
    stop = λ s. s;
    driver_uninstall = λ s. s;
  };
  Lora = ℕ;
  lora_uart = record {
    is_driver_installed = λ s. false;
    driver_delete = λ s. s;
    param_config = λ s. (true, s);
    set_pin = λ s. (true, s);
    driver_install = λ s. (true, s);
    pause = λ s. s + 1000;
  };
  lora_hal = record {
    set_mode_pins = λ m0 m1 s. s;
    is_aux_ready = λ s. (leb 30 s, s);
    uart_flush = λ s. s;
    uart_write = λ bytes s. s + 1;
    uart_read = λ len timeout s. (record { count = pos 0; buffer = [] }, s + timeout);
    delay_ms = λ ms s. s + ms;
    now_ms = λ s. s % u64_mod;
  };
  lora_port = record {
    is_aux_ready = λ s. (true, s);
    tx_buffer_free = λ s. (some 256, s);
    uart_write = λ bytes s. (pos 108, s + 1);
    feed_watchdog = λ s. s;
  };
  all_closed = λ m. false;
}

abbrev driving : Machine board.relays board.events
driving = record {
  state = VcuState.drive;
  event_queue = some (VcuEvent.start_request ∷ []);
  state_timer = 0;
  uptime_ms = 4294967290;
  latest_data = healthy;
  warning_logged = false;
  data_mutex = true;
  estop_pending = false;
  fault_pending = false;
  relays = one_relay;
  relays_opened_in_estop = false;
  relays_opened_in_fault = false;
  last_estop_log_ms = 0;
  last_fault_log_ms = 0;
  last_ready_reject_reason = none;
  last_ready_reject_log_ms = 0;
  torque_sink = true;
  torque_requests = [];
}

abbrev display : Display
display = record {
  is_initialized = true;
  has_cached_screen = false;
  last_screen_data = record {
    current_speed = 0;
    current_battery = 0;
    hmi_motor_rpm = 0;
    motor_torque_feedback = pos 0;
    hmi_error_flags = 0;
    bms_temperature_c = pos 0;
    pack_voltage_deci_v = 0;
    pack_current_centi_a = pos 0;
    vcu_state = HmiVcuState.init;
    contactor_closed = false;
    hmi_data_valid = false;
    hmi_timeout_active = false;
  };
}

-- The CAN task is about to publish, and a byte of noise has arrived at the display.
abbrev under_way : Vehicle board
under_way = record {
  can = publishing started;
  can_bus = 0;
  vcu_task = peeking;
  vcu = driving;
  box = none;
  hmi = record {
    phase = poll;
    retry_count = 0;
    display = display;
    touch = record { rx_state = wait_checksum; pending_cmd = 1 };
    refresh = record { hmi_cache = new_cache; last_cell_update_ms = 0; first_run = true };
    rx = 0xFF ∷ [];
    writes = [];
  };
  radio = disabled 0;
}

abbrev pressed : Vehicle board
pressed = step board (do_hmi_poll (touch_frame 3)) under_way

abbrev publish_and_peek : List (Action board)
publish_and_peek = do_can_publish 0 100 ∷ do_vcu ∷ do_vcu ∷ []

abbrev peek_again : List (Action board)
peek_again = do_vcu ∷ do_vcu ∷ []

press_quiet : ticks board publish_and_peek pressed ≡ 0
unfolding ticks step can_publish can_publish_at vcu_step vcu_step_at hmi_poll hmi_poll_at
press_quiet = refl

press_running : (steps board publish_and_peek pressed).vcu_task ≡ running
unfolding steps step can_publish can_publish_at vcu_step vcu_step_at hmi_poll hmi_poll_at
press_running = refl

stopped_quiet :
    ticks board peek_again (first_tick board under_way (touch_frame 3) publish_and_peek) ≡ 0
unfolding ticks steps step can_publish can_publish_at vcu_step vcu_step_at vcu_run hmi_poll
    hmi_poll_at
stopped_quiet = refl

stopped_running :
    (steps board peek_again (first_tick board under_way (touch_frame 3) publish_and_peek)).vcu_task
    ≡ running
unfolding ticks steps step can_publish can_publish_at vcu_step vcu_step_at vcu_run hmi_poll
    hmi_poll_at
stopped_running = refl

stop_in_any_order_example :
    let first = first_tick board under_way (touch_frame 3) publish_and_peek in
    let w = steps board peek_again first in
    (first.vcu.state ≡ VcuState.emergency_stop)
    × ((board.relays.closed (step board do_vcu w).vcu.relays 0 ≡ false)
        ⊎ ((w.vcu.fault_pending ≡ true)
            ⊎ (is_overriding (next_event board.relays board.events w.vcu) ≡ true)))
stop_in_any_order_example =
    stop_in_any_order board under_way (touch_frame 3) 0xFF [] publish_and_peek peek_again 0 refl
      refl (inl refl) refl (λ h. cc) (λ h. cc) press_quiet press_running stopped_quiet
      stopped_running

-- The CAN task is about to read.
abbrev listening : Vehicle board
listening = record under_way { can = reading started }

abbrev peek : List (Action board)
peek = do_vcu ∷ []

abbrev heard : Vehicle board
heard = received board 4 6 none high_frames peek listening

heard_driving : heard.vcu ≡ driving
unfolding steps step can_receive can_receive_at vcu_step vcu_step_at
heard_driving = refl

heard_peeked : heard.vcu_task ≡ running
unfolding steps step can_receive can_receive_at vcu_step vcu_step_at
heard_peeked = refl

heard_running : (steps board [] (step board do_can_post heard)).vcu_task ≡ running
unfolding steps
heard_running = step_post-task board heard ∙ heard_peeked

heard_quiet : ticks board [] (step board do_can_post heard) ≡ 0
unfolding ticks
heard_quiet = refl

fault_in_any_order_example :
    Stopped board.relays board.events
      (step board do_vcu (steps board [] (step board do_can_post heard))).vcu
fault_in_any_order_example =
    fault_in_any_order board 4 6 none high_frames listening started peek [] refl
      (omega (arith, high-reported)) (tt, tt) (rw heard_driving (λ h. cc))
      (rw heard_driving (λ h. cc)) (rw heard_driving (λ h. cc)) heard_quiet heard_running

-- The start, with the relay driver set up, and a schedule of all that the tasks can do without the hardware's help.
abbrev machine : Machine board.relays board.events
machine =
    set_torque_sink true
      (init board.relays board.events (some []) true (boot board.relays board.events one_relay))

main_starts :
    app_main board.relays board.events true
      (some [])
      true
      true
      (boot board.relays board.events one_relay)
    ≡ some machine
unfolding app_main
main_starts = refl

vehicle-IsSafe_example : IsSafe board 3 (omega arith) (
    steps board
      (do_vcu ∷ (do_hmi_poll [] ∷ publish_and_peek))
      (Vehicle.started board 0 none 0 display machine))
vehicle-IsSafe_example =
    vehicle-IsSafe board 3 (omega arith) true (some []) true true one_relay machine 0 none 0 display
      (do_vcu ∷ (do_hmi_poll [] ∷ publish_and_peek)) refl main_starts
