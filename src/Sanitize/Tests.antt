-- ===== src/Sanitize/Tests.antt =====
-- The gate on a sample that the receiver would refuse.
use tufan_aks.Base.{◌≡◌}
use tufan_aks.Data.{TelemetryData, zero_telemetry}
use tufan_aks.Sanitize.{IsAccepted, sanitize_for_uplink, sanitize-IsAccepted, int32_min}

abbrev refused : TelemetryData
refused = record zero_telemetry { bms_soc_hundredths = 20000; bms_current_centi_a = int32_min }

sanitize-IsAccepted_example :
    IsAccepted (sanitize_for_uplink refused)
    × (sanitize_for_uplink (sanitize_for_uplink refused) ≡ sanitize_for_uplink refused)
sanitize-IsAccepted_example = sanitize-IsAccepted refused
