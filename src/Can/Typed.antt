-- ===== src/Can/Typed.antt =====
-- The rest of the values that CanManager keeps, ESP_AKS/lib/CanManager/CanManager.cpp, beside those that are sent to the
-- radio: their types, and how the cell voltages, the mask of the groups seen and the two flags of a complete set agree.
use Prim.Native.Nat.{bit_or}
use tufan_aks.Base.{
  ℕ, zero, suc, ◌+◌, ◌*◌, ◌^◌, ◌-◌, ◌==◌, ◌≡◌, ◌≤◌, ◌<◌, refl, arith, Bool, true, false, ltb, ◌⊎◌,
  inl, inr, if◌then◌else◌, Option, none, some, Bool-cases, all_below, all_below-holds, Option-cases,
  List, [], ◌∷◌, All, length, get_or, set, subst, sym, ap, ◌∙◌,
}
use tufan_aks.Base.Int.{pos_part, neg_part}
use tufan_aks.Base.Words.{u32_mod}
use tufan_aks.Data.{TelemetryData, zero_telemetry}
use tufan_aks.Parse.{
  CanFrame, byte, word, parse_motor_status, parse_lb_bms_e000, parse_lb_bms_e001,
  parse_charger_1806e5f4,
}
use tufan_aks.Parse.Fields.{
  AreBytes, get_or-AreBytes, word_lt, parse_group, parse_group_cells, cell_after,
}
use tufan_aks.Can.{CanManager, notify_fault_if_needed, motor_error_fault_confirmed}
use tufan_aks.Can.Handle.{
  copy_cells, store_motor_status, handle_motor_status, handle_lb_bms_e000, handle_lb_bms_e001,
  store_cells, store_parsed, handle_charger_1806e5f4,
}
use tufan_aks.Can.Update.{
  update_motor_status_validity, update_bms_validity, update_cell_voltage_validity,
  update_charger_validity,
}
use tufan_aks.Can.Receive.{
  Alerts, RxResult, handle_bus_off, handle_bus_recovered, handle_rx_queue_full, handle_alerts,
  run_updates, process_rx_messages,
}
use tufan_aks.Can.Assembly.{length-copy_cells}
use tufan_aks.Can.Keep.{Keeps, RxFits, process-keeps}
use tufan_aks.Can.Fits.{ManagerFits, keeps-Fits, masked_byte, signed16_range}

abbrev pub AreWords : List ℕ → Type 0
AreWords = All (λ c. c < 65536)

pub record IsConsistent (m : CanManager) : Type 0 where
  pub cells : AreWords m.telemetry.bms_cell_voltages
  pub cell_count : length m.telemetry.bms_cell_voltages ≡ 24
  pub cell_avg : m.telemetry.bms_cell_voltage_avg_deci_mv < 65536
  pub soc2 : m.telemetry.bms_soc2_hundredths < 65536
  pub mask : m.cell_voltage_seen_mask < 64
  pub complete : m.telemetry.cell_voltage_data_valid ≡ m.cell_voltage_complete
  pub whole : (m.telemetry.cell_voltage_data_valid ≡ false) ⊎ (m.cell_voltage_seen_mask ≡ 63)
  pub errors : m.motor_error_consecutive < 65536
  pub full_count : m.rx_queue_full_count < u32_mod
  pub remote_count : m.rx_remote_frame_count < u32_mod
  pub pack_flags : m.bms_pack_fault_flags < 3
  pub charger_voltage : m.charger_command.charge_voltage_setpoint_deci_v < 65536
  pub charger_current : m.charger_command.charge_current_setpoint_deci_a < 65536
  pub rpm_pos : pos_part m.motor_status.rpm < 32768
  pub rpm_neg : neg_part m.motor_status.rpm ≤ 32768
  pub motor_voltage : m.motor_status.motor_voltage_deci_v < 65536
  pub motor_flags : m.motor_status.error_flags < 256

set-AreWords : (xs : List ℕ) (i v : ℕ) → AreWords xs → v < 65536 → AreWords (set xs i v)
set-AreWords [] i v h lt = tt
set-AreWords (x ∷ xs) zero v (a, h) lt = (lt, h)
set-AreWords (x ∷ xs) (suc i) v (a, h) lt = (a, set-AreWords xs i v h lt)

copy-AreWords :
    (first : ℕ) (p cells : List ℕ)
    → ((j : ℕ) → get_or p j 0 < 65536)
    → AreWords cells
    → AreWords (copy_cells first p cells)
copy-AreWords first p cells w h =
    set-AreWords _ (first + 3) _
      (set-AreWords _ (first + 2) _
        (set-AreWords _ (first + 1) _ (set-AreWords cells first _ h (w first)) (w (first + 1)))
        (w (first + 2)))
      (w (first + 3))

e000-IsConsistent :
    (now : ℕ) (f : CanFrame) (m : CanManager)
    → AreBytes f.bytes
    → IsConsistent m
    → IsConsistent (handle_lb_bms_e000 now f m)
unfolding handle_lb_bms_e000 parse_lb_bms_e000 notify_fault_if_needed
e000-IsConsistent now f m b h = ground (arith, word_lt f 6 b)

e001-IsConsistent :
    (now : ℕ) (f : CanFrame) (m : CanManager)
    → AreBytes f.bytes
    → IsConsistent m
    → IsConsistent (handle_lb_bms_e001 now f m)
unfolding handle_lb_bms_e001 parse_lb_bms_e001
e001-IsConsistent now f m b h = ground (arith, word_lt f 4 b)

charger-IsConsistent :
    (now : ℕ) (f : CanFrame) (m : CanManager)
    → AreBytes f.bytes
    → IsConsistent m
    → IsConsistent (handle_charger_1806e5f4 now f m)
unfolding handle_charger_1806e5f4 parse_charger_1806e5f4
charger-IsConsistent now f m b h = ground (arith, word_lt f 0 b, word_lt f 2 b)

motor-IsConsistent :
    (now : ℕ) (f : CanFrame) (m : CanManager)
    → AreBytes f.bytes
    → IsConsistent m
    → IsConsistent (handle_motor_status now f m)
unfolding handle_motor_status parse_motor_status store_motor_status notify_fault_if_needed
    motor_error_fault_confirmed
motor-IsConsistent now f m b h = ground (
  arith,
  signed16_range (word f 0) (word_lt f 0 b),
  word_lt f 2 b,
  masked_byte (byte f 7) (get_or-AreBytes f.bytes 7 b),
)

-- Bit g of the mask, for each of the six groups.
or_small : (g b : ℕ) → g < 6 → b < 64 → bit_or b (2 ^ g) < 64
or_small g b lt h = ground (
  arith,
  all_below-holds (λ k. all_below (λ a. ltb (bit_or a (2 ^ k)) 64) 64) 6 g refl lt,
  all_below-holds (λ a. ltb (bit_or a (2 ^ g)) 64) 64 b,
  h,
)

or_full : (g : ℕ) → g < 6 → bit_or 63 (2 ^ g) ≡ 63
or_full g lt = ground (arith, all_below-holds (λ k. bit_or 63 (2 ^ k) == 63) 6 g refl lt)

or_whole :
    (g mask : ℕ) (valid : Bool)
    → g < 6
    → (valid ≡ false) ⊎ (mask ≡ 63)
    → let n = bit_or mask (2 ^ g) in ((if n == 63 then true else valid) ≡ false) ⊎ (n ≡ 63)
or_whole g mask valid lt (inl e) = elim (Bool-cases (bit_or mask (2 ^ g) == 63)) [
  | inl y ↦ inr (ground (arith, y))
  | inr n ↦ inl (rw (n, e) refl)
]
or_whole g mask valid lt (inr e) = inr (rw e (or_full g lt))

store-IsConsistent :
    (g now : ℕ) (d : TelemetryData) (m : CanManager)
    → g < 6
    → ((j : ℕ) → get_or d.bms_cell_voltages j 0 < 65536)
    → IsConsistent m
    → IsConsistent (store_cells g now d m)
unfolding store_cells
store-IsConsistent g now d m lt w h =
    let a = copy-AreWords (4 * g) d.bms_cell_voltages m.telemetry.bms_cell_voltages w h.cells in
    let l = length-copy_cells (4 * g) d.bms_cell_voltages m.telemetry.bms_cell_voltages in
    record {
      cells = a;
      cell_count = l ∙ h.cell_count;
      cell_avg = h.cell_avg;
      soc2 = h.soc2;
      mask = or_small g m.cell_voltage_seen_mask lt h.mask;
      complete =
          ap (λ b. if bit_or m.cell_voltage_seen_mask (2 ^ g) == 63 then true else b) h.complete;
      whole = or_whole g m.cell_voltage_seen_mask m.telemetry.cell_voltage_data_valid lt h.whole;
      errors = h.errors;
      full_count = h.full_count;
      remote_count = h.remote_count;
      pack_flags = h.pack_flags;
      charger_voltage = h.charger_voltage;
      charger_current = h.charger_current;
      rpm_pos = h.rpm_pos;
      rpm_neg = h.rpm_neg;
      motor_voltage = h.motor_voltage;
      motor_flags = h.motor_flags;
    }

get_or-AreWords : (l : List ℕ) (j : ℕ) → AreWords l → get_or l j 0 < 65536
get_or-AreWords [] j h = omega arith
get_or-AreWords (x ∷ xs) zero h = h.0
get_or-AreWords (x ∷ xs) (suc j) h = get_or-AreWords xs j h.1

cell_after_range :
    (first : ℕ) (f : CanFrame) (cells : List ℕ) (j : ℕ)
    → AreBytes f.bytes
    → AreWords cells
    → cell_after first f cells j < 65536
cell_after_range first f cells j b h =
    ground (arith, word_lt f ((j - first) * 2) b, get_or-AreWords cells j h)

parsed-AreWords :
    (g : ℕ) (f : CanFrame) (d : TelemetryData)
    → g < 6
    → AreBytes f.bytes
    → parse_group g f zero_telemetry ≡ some d
    → (j : ℕ) → get_or d.bms_cell_voltages j 0 < 65536
parsed-AreWords g f d lt b e j =
    subst (λ c. c < 65536) (sym (parse_group_cells g j f zero_telemetry d lt refl e).0)
      (cell_after_range (4 * g) f zero_telemetry.bms_cell_voltages j b (ground arith))

cells-IsConsistent :
    (g now : ℕ) (f : CanFrame) (m : CanManager)
    → g < 6
    → AreBytes f.bytes
    → IsConsistent m
    → IsConsistent (store_parsed g now (parse_group g f zero_telemetry) m)
cells-IsConsistent g now f m lt b h = elim (Option-cases (parse_group g f zero_telemetry)) [
  | inl e ↦ subst (λ o. IsConsistent (store_parsed g now o m)) (sym e) h
  | inr (d, e) ↦
      subst (λ o. IsConsistent (store_parsed g now o m)) (sym e)
        (store-IsConsistent g now d m lt (parsed-AreWords g f d lt b e) h)
]

module _ (ms_to_ticks : ℕ → ℕ) where
  alerts-IsConsistent :
      (now : ℕ) (a : Option Alerts) (m : CanManager)
      → IsConsistent m
      → IsConsistent (handle_alerts ms_to_ticks now a m)
  unfolding handle_alerts handle_rx_queue_full handle_bus_off handle_bus_recovered
  alerts-IsConsistent now none m h = h
  alerts-IsConsistent now (some a) m h = ground arith

  motor_update-IsConsistent :
      (now : ℕ) (m : CanManager)
      → IsConsistent m
      → IsConsistent (update_motor_status_validity ms_to_ticks now m)
  unfolding update_motor_status_validity
  motor_update-IsConsistent now m h = ground arith

  bms_update-IsConsistent :
      (now : ℕ) (m : CanManager)
      → IsConsistent m
      → IsConsistent (update_bms_validity ms_to_ticks now m)
  unfolding update_bms_validity
  bms_update-IsConsistent now m h = ground arith

  cell_update-IsConsistent :
      (now : ℕ) (m : CanManager)
      → IsConsistent m
      → IsConsistent (update_cell_voltage_validity ms_to_ticks now m)
  unfolding update_cell_voltage_validity
  cell_update-IsConsistent now m h = ground arith

  charger_update-IsConsistent :
      (now : ℕ) (m : CanManager)
      → IsConsistent m
      → IsConsistent (update_charger_validity ms_to_ticks now m)
  unfolding update_charger_validity
  charger_update-IsConsistent now m h = ground arith

  updates-IsConsistent :
      (now : ℕ) (m : CanManager) → IsConsistent m → IsConsistent (run_updates ms_to_ticks now m)
  unfolding run_updates
  updates-IsConsistent now m h = charger_update-IsConsistent now _ (
      cell_update-IsConsistent now _
        (bms_update-IsConsistent now _ (motor_update-IsConsistent now m h)))

  keeps-IsConsistent : Keeps ms_to_ticks IsConsistent
  keeps-IsConsistent = record {
    motor = motor-IsConsistent;
    e000 = e000-IsConsistent;
    e001 = e001-IsConsistent;
    charger = charger-IsConsistent;
    cells = cells-IsConsistent;
    remote = λ m h. ground arith;
    alerts = alerts-IsConsistent;
    updates = updates-IsConsistent;
  }

  -- The manager's values stay within the types of their fields, and its account of the cell voltages stays whole. If all
  -- this holds before `processRxMessages`, then after it, whatever alerts and frames the driver delivers, if their bytes
  -- are bytes: the values that are sent to the radio, the 24 cell voltages, the setpoints of the charger and the
  -- counters are of the types of the source's fields, the mask of the groups seen has six bits, the pack's fault flags are
  -- 0, 1 or 2, and the cell data are marked valid exactly if the set is marked complete, and then only with all six
  -- groups seen.
  pub process-IsTyped :
      (now later : ℕ) (alerts : Option Alerts) (q : List RxResult) (m : CanManager)
      → All RxFits q
      → ManagerFits m × IsConsistent m
      → let t = process_rx_messages ms_to_ticks now later alerts q m in
        ManagerFits t × IsConsistent t
  process-IsTyped now later alerts q m b (h, c) = (
    process-keeps ms_to_ticks ManagerFits (keeps-Fits ms_to_ticks) now later alerts q m b h,
    process-keeps ms_to_ticks IsConsistent keeps-IsConsistent now later alerts q m b c,
  )
