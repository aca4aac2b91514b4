-- ===== src/Fixtures.antt =====
-- Concrete devices for the examples: a chip with registers, a queue of eight events, a snapshot in
-- the operating band, and frames.
use tufan_aks.Base.{
  ℕ, ◌==◌, ◌<◌, ◌≤◌, ◌≡◌, ◌≢◌, refl, arith, Bool, true, false, if◌then◌else◌, List, [], ◌∷◌, ◌++◌,
  length, ltb, Option, none, some,
}
use tufan_aks.Base.Int.{pos}
use tufan_aks.Data.{TelemetryData, zero_telemetry}
use tufan_aks.Queue.{EventQueue}
use tufan_aks.Relay.{SpiDevice, Manager}
use tufan_aks.Relay.Verify.{IsRegisterFile}
use tufan_aks.Parse.{CanFrame}

abbrev pub register_file : SpiDevice
register_file = record {
  Device = ℕ → ℕ;
  write = λ r v d k. if r == k then v else d k;
  read = λ r d. (some (d r), d);
}

pub write_self : (r v : ℕ) (d : ℕ → ℕ) → (if r == r then v else d r) ≡ v
write_self r v d = ground arith

pub write_other : (r v k : ℕ) (d : ℕ → ℕ) → r ≢ k → (if r == k then v else d k) ≡ d k
write_other r v k d h = ground arith

abbrev pub register_file-IsRegisterFile : IsRegisterFile register_file
register_file-IsRegisterFile = record {
  value = λ d r. d r;
  read_value = λ r d. refl;
  read_keeps = λ r k d. refl;
  write_self = write_self;
  write_other = write_other;
}

-- A chip after power-up that has been attached, with one relay commanded.
abbrev pub one_relay : Manager (ℕ → ℕ)
one_relay = record {
  relay_state = 1;
  spi_attached = true;
  device = λ r. 0xFF;
  initialized = true;
  actuator_fault = false;
  last_verify_ms = 4294967290;
  verify_started = true;
}

module _ {A : Type 0} where
  abbrev list_send : A → List A → Bool × List A
  list_send a q = if ltb (length q) 8 then (true, q ++ (a ∷ [])) else (false, q)

  abbrev list_receive : List A → Option (A × List A)
  list_receive [] = none
  list_receive (a ∷ q) = some (a, q)

  pub send_room :
      (a : A) (q : List A)
      → length q < 8
      → ((list_send a q).0 ≡ true) × ((list_send a q).1 ≡ q ++ (a ∷ []))
  send_room a q h = ground arith

  pub send_full : (a : A) (q : List A) → 8 ≤ length q → list_send a q ≡ (false, q)
  send_full a q h = ground arith

  pub receive_empty : (q : List A) → q ≡ [] → list_receive q ≡ none
  receive_empty q h = rw h refl

  pub receive_first :
      (q : List A) {a : A} {rest : List A}
      → q ≡ a ∷ rest
      → (q' : List A) × (list_receive q ≡ some (a, q')) × (q' ≡ rest)
  receive_first q {rest = rest} h = (rest, rw h refl, refl)

  abbrev pub list_queue : EventQueue A
  list_queue = record {
    Handle = List A;
    capacity = 8;
    contents = λ q. q;
    send = list_send;
    receive = list_receive;
    send_room = send_room;
    send_full = send_full;
    receive_empty = receive_empty;
    receive_first = receive_first;
  }

-- A healthy pack, without cell voltages.
abbrev pub healthy : TelemetryData
healthy = record zero_telemetry {
  bms_pack_voltage_deci_v = 800;
  bms_current_centi_a = pos 100;
  bms_temp_highest_c = pos 30;
  bms_temp_lowest_c = pos 25;
  bms_system_state = 2;
  bms_soc_hundredths = 5000;
  bms_data_valid = true;
}

abbrev pub overcharged : TelemetryData
overcharged = record healthy { bms_pack_voltage_deci_v = 880 }

-- A full data frame with the bytes given.
abbrev pub extended_frame : ℕ → List ℕ → CanFrame
extended_frame id bytes = record {
  identifier = id;
  extd = true;
  rtr = false;
  data_length_code = 8;
  bytes = bytes;
}
