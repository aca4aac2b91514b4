-- ===== src/Tasks/Transmit/Tests.antt =====
-- The transmission's theorems with a UART that refuses the second packet, and a ring with one sample.
use tufan_aks.Base.{
  ℕ, ◌+◌, ◌*◌, ◌==◌, ◌≡◌, ◌≤◌, refl, arith, Bool, true, false, if◌then◌else◌, List, [], ◌++◌,
  length, map, take, drop, some, All, subst, sym,
}
use tufan_aks.Base.Int.{pos, negsuc}
use tufan_aks.Data.{TelemetryData}
use tufan_aks.Fixtures.{healthy}
use tufan_aks.Buffer.{Ring, new_ring, ob_push}
use tufan_aks.Buffer.Refine.{IsRing, contents, push-contents, new_ring-IsRing}
use tufan_aks.Uplink.{UplinkScheduler, on_tx_tick_link_up}
use tufan_aks.Telemetry.Frame.{Fits}
use tufan_aks.Tasks.Transmit.{TxPort, TxContext, tx_send}
use tufan_aks.Tasks.Transmit.Offer.{Offer, recorded, numbered, Offered, Sends, tx_send-Sends}
use tufan_aks.Tasks.Transmit.Bytes.{total_bytes}
use tufan_aks.Tasks.Transmit.Room.{after_replay, Stops}
use tufan_aks.Tasks.Transmit.Rate.{Tail, tick_offers}
use tufan_aks.Tasks.Radio.Run.{SnapshotFits}

-- The state is the number of packets offered.
abbrev port : TxPort ℕ
port = record {
  is_aux_ready = λ s. (true, s);
  tx_buffer_free = λ s. (some 256, s);
  uart_write = λ bytes s. (if s == 1 then negsuc 0 else pos 108, s + 1);
  feed_watchdog = λ s. s;
}

abbrev context : TxContext (ℕ × List Offer)
context = record {
  telemetry = record { is_initialized = true; sequence_counter = 4294967295 };
  aux_not_ready_logged = true;
  deferred_count = 0;
  hardware = (1, []);
}

healthy-Fits : Fits healthy
healthy-Fits = record {
  rpm_pos = omega arith;
  rpm_neg = omega arith;
  motor_voltage = omega arith;
  error_flags = omega arith;
  cell_max = omega arith;
  cell_min = omega arith;
  highest_pos = omega arith;
  highest_neg = omega arith;
  lowest_pos = omega arith;
  lowest_neg = omega arith;
  system_state = omega arith;
  pack_voltage = omega arith;
  current_pos = omega arith;
  current_neg = omega arith;
  soc = omega arith;
  timestamp = omega arith;
  speed = omega arith;
}

tx_send-Sends_example : Sends port healthy context (tx_send (recorded port) healthy true context)
tx_send-Sends_example = tx_send-Sends port healthy true context (refl, omega arith) healthy-Fits

abbrev scheduler : UplinkScheduler
scheduler = record {
  link_timeout = 3000;
  boot_grace = 5000;
  offline_sample_period = 800;
  replay_burst_per_tick = 2;
  unknown_byte_warn_interval = 10000;
  link_down = false;
  last_heartbeat = 7000;
  unknown_rx_byte_count = 0;
  last_unknown_rx_byte_warn = 0;
  last_offline_sample = 0;
  offline_first_ts = 0;
  offline_last_ts = 0;
  offline_has_samples = false;
}

abbrev held : Ring
held = ob_push healthy new_ring

held-IsRing : IsRing held
held-IsRing = (push-contents healthy new_ring new_ring-IsRing).1

held-Fits : All Fits (contents held)
held-Fits =
    subst (All Fits) (sym (push-contents healthy new_ring new_ring-IsRing).0) (healthy-Fits, tt)

live-Fits : (x : TelemetryData) → some healthy ≡ some x → Fits x
live-Fits x e = subst SnapshotFits e healthy-Fits

tick_offers_example :
    let t = on_tx_tick_link_up (tx_send (recorded port)) (some healthy) scheduler held context in
    (n : ℕ) × (ps : List (TelemetryData × Bool)) × (qs : List (TelemetryData × Bool)) × (s : ℕ) × (n
      ≤ 2)
    × (map (λ p. p.0) ps ≡ take n (contents held))
    × Stops port 2 (length (contents held)) n (after_replay port 4294967295 ps 1) s
    × Tail port (some healthy) s qs
    × (contents (t.1) ≡ drop n (contents held))
    × IsRing (t.1)
    × Offered (ps ++ qs) context (t.2)
    × (total_bytes (numbered 4294967295 (ps ++ qs)) ≤ 108 * (2 + 1))
tick_offers_example =
    tick_offers port (some healthy) scheduler held context held-IsRing held-Fits live-Fits
      (refl, omega arith)
