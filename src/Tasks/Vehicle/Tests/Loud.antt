-- ===== src/Tasks/Vehicle/Tests/Loud.antt =====
-- The link budget where a frame that claims 65535 in every word is received, published and sent.
use tufan_aks.Base.{ℕ, ◌+◌, ◌≡◌, refl, arith, true, false, List, [], ◌∷◌, none}
use tufan_aks.Fixtures.{extended_frame}
use tufan_aks.Tasks.Vehicle.{
  Vehicle, Action, do_can_set_up, do_radio, do_can_receive, do_can_post, do_can_publish, do_vcu,
  do_hmi_show, do_hmi_poll, step, steps, can_receive, can_publish, can_publish_at, can_receive_at,
  vcu_step, vcu_step_at, vcu_run, hmi_poll, hmi_poll_at,
}
use tufan_aks.Tasks.Vehicle.Recorded.{recorded_board}
use tufan_aks.Parse.Fields.{AreBytes}
use tufan_aks.Can.Receive.{RxResult}
use tufan_aks.Tasks.Radio.{Round}
use tufan_aks.Base.{◌*◌, ◌≤◌}
use tufan_aks.Buffer.{new_ring}
use tufan_aks.E22.{parse_reg_response}
use tufan_aks.Lora.{
  configure_e22, wait_aux_ready, wait_aux_from, read_and_repair, needs_write, write_contract,
  send_command,
}
use tufan_aks.Lora.Init.{begin_uart, attempt, init_loop}
use tufan_aks.Telemetry
use tufan_aks.Tasks.Transmit.Offer.{Offer}
use tufan_aks.Tasks.Transmit.Bytes.{total_bytes}
use tufan_aks.Tasks.Radio.{Radio}
use tufan_aks.Tasks.Vehicle.{radio_step, radio_step_at}
use tufan_aks.Tasks.Vehicle.Phases.{sending, new_scheduler, radio_set_up, radio_ready, radio_start}
use tufan_aks.Tasks.Vehicle.Budget.{vehicle_budget}
use tufan_aks.Tasks.Vehicle
use tufan_aks.Tasks.Vehicle.Tests.{board, display, machine}

-- A frame that claims 65535 in every word, and its snapshot.
abbrev loud_frames : List RxResult
loud_frames =
    RxResult.received 5 (extended_frame 0xE000 (255 ∷ 255 ∷ 255 ∷ 255 ∷ 255 ∷ 255 ∷ 255 ∷ 255 ∷ []))
    ∷ []

abbrev idle_round : Round
idle_round = record {
  received = [];
  link_ms = 600;
  sample_ms = 600;
  now_tick = 600;
  snapshot = none;
}

loud_bytes : AreBytes (255 ∷ 255 ∷ 255 ∷ 255 ∷ 255 ∷ 255 ∷ 255 ∷ 255 ∷ [])
loud_bytes = (
  omega arith,
  (
    omega arith,
    (omega arith, (omega arith, (omega arith, (omega arith, (omega arith, (omega arith, tt)))))),
  ),
)

-- The radio's set-up with a module that is ready at once, whose registers are unknown.
abbrev from_30 : Vehicle (recorded_board board)
from_30 = Vehicle.started (recorded_board board) 0 none (30, []) display machine

abbrev sender : Radio (ℕ × List Offer)
sender = record {
  scheduler = new_scheduler;
  ring = new_ring;
  tx = record {
    telemetry = record { is_initialized = true; sequence_counter = 0 };
    aux_not_ready_logged = false;
    deferred_count = 0;
    hardware = (1082, []);
  };
  last_telemetry_tick = 0;
}

sender_up :
    (steps (recorded_board board) (do_radio idle_round ∷ []) from_30).radio ≡ sending 1082 sender
unfolding steps step radio_step radio_step_at Vehicle.started radio_set_up radio_ready radio_start
    begin_uart attempt init_loop configure_e22 wait_aux_ready wait_aux_from read_and_repair
    needs_write parse_reg_response write_contract send_command Telemetry.begin new_scheduler
sender_up = refl

-- The frame is received and published, and the radio sends the snapshot.
abbrev loud_schedule : List (Action (recorded_board board))
loud_schedule =
    do_can_set_up true
    ∷ do_can_receive 4 6 none loud_frames
    ∷ do_can_post
    ∷ do_can_publish 65535 4294967295
    ∷ do_radio idle_round
    ∷ do_vcu
    ∷ []

vehicle_budget_example :
    (r' : Radio (ℕ × List Offer)) × ((steps
        (recorded_board board)
        loud_schedule
        (steps (recorded_board board) (do_radio idle_round ∷ []) from_30)).radio
      ≡ sending 1082 r')
    × (total_bytes r'.tx.hardware.1 * 500 + 216 * 0 ≤ 0 * 500 + 216 * 700)
vehicle_budget_example =
    vehicle_budget board machine 0 none (30, []) display (do_radio idle_round ∷ []) loud_schedule
      1082 0 0 700 sender refl (tt, tt)
      (tt, ((loud_bytes, tt), (tt, ((omega arith, omega arith), (tt, (tt, tt)))))) sender_up refl
      (omega arith)
      (
        0,
        refl,
        (0, refl, (0, refl, (0, refl, (600, (omega arith, refl), (600, refl, omega arith))))),
      )
