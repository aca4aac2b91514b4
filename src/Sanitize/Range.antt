-- ===== src/Sanitize/Range.antt =====
-- The values behind the gate of ESP_AKS/lib/Telemetry/TelemetrySanitize.h are of the types of the packet's fields.
use tufan_aks.Base.{◌≤◌, ◌<◌, arith}
use tufan_aks.Base.Int.{ℤ, pos, negsuc, pos_part, neg_part}
use tufan_aks.Data.{TelemetryData}
use tufan_aks.Telemetry.Frame.{Fits}
use tufan_aks.Sanitize.{sanitize_for_uplink, sanitize_current, state_range, soc_range}

current_pos_range : (z : ℤ) → pos_part z < 2147483648 → pos_part (sanitize_current z) < 2147483648
unfolding sanitize_current
current_pos_range (pos n) h = h
current_pos_range (negsuc n) h = ground arith

current_neg_range : (z : ℤ) → neg_part z ≤ 2147483648 → neg_part (sanitize_current z) ≤ 2147483648
unfolding sanitize_current
current_neg_range (pos n) h = h
current_neg_range (negsuc n) h = ground arith

pub sanitize-Fits : (d : TelemetryData) → Fits d → Fits (sanitize_for_uplink d)
unfolding sanitize_for_uplink
sanitize-Fits d f = record {
  rpm_pos = f.rpm_pos;
  rpm_neg = f.rpm_neg;
  motor_voltage = f.motor_voltage;
  error_flags = f.error_flags;
  cell_max = f.cell_max;
  cell_min = f.cell_min;
  highest_pos = f.highest_pos;
  highest_neg = f.highest_neg;
  lowest_pos = f.lowest_pos;
  lowest_neg = f.lowest_neg;
  pack_voltage = f.pack_voltage;
  timestamp = f.timestamp;
  speed = f.speed;
  system_state = let r = state_range d.bms_system_state in omega (arith, r.1);
  soc = let r = soc_range d.bms_soc_hundredths in omega arith;
  current_pos = current_pos_range d.bms_current_centi_a f.current_pos;
  current_neg = current_neg_range d.bms_current_centi_a f.current_neg;
}
