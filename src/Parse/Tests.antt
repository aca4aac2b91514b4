-- ===== src/Parse/Tests.antt =====
-- The parsers on concrete frames.
use tufan_aks.Base.{◌≡◌, refl, arith, true, [], ◌∷◌, some}
use tufan_aks.Base.Int.{negsuc, scale}
use tufan_aks.Data.{TelemetryData, zero_telemetry}
use tufan_aks.Fixtures.{extended_frame}
use tufan_aks.Parse.{CanFrame, parse_lb_bms_e000, parse_lb_bms_e016}
use tufan_aks.Parse.Fields.{four_words, pattern16, parse-e000_encoded, parse_group}

-- -12.5 A, 79.2 V, 55.5 % and 50 %
abbrev pack_frame : CanFrame
pack_frame = extended_frame 0xE000 (four_words (pattern16 (negsuc 124)) 792 5550 5000)

parse-e000_encoded_example :
    parse_lb_bms_e000 pack_frame zero_telemetry
    ≡ some (record zero_telemetry {
      bms_current_centi_a = scale 10 (negsuc 124);
      bms_pack_voltage_deci_v = 792;
      bms_soc_hundredths = 5550;
      bms_soc2_hundredths = 5000;
      bms_data_valid = true;
    })
parse-e000_encoded_example =
    parse-e000_encoded pack_frame (negsuc 124) 792 5550 5000 zero_telemetry (ground arith) refl refl

abbrev cells_frame : CanFrame
cells_frame = extended_frame 0xE016 (four_words 33500 33510 33490 33505)

abbrev cells : TelemetryData
cells = record zero_telemetry {
  bms_cell_voltages =
      0 ∷ 0 ∷ 0 ∷ 0 ∷ 3350 ∷ 3351 ∷ 3349 ∷ 3350 ∷ 0 ∷ 0 ∷ 0 ∷ 0 ∷ 0 ∷ 0 ∷ 0 ∷ 0 ∷ 0 ∷ 0 ∷ 0 ∷ 0 ∷ 0
      ∷ 0 ∷ 0 ∷ 0 ∷ [];
}

cells_parsed : parse_group 1 cells_frame zero_telemetry ≡ some cells
unfolding parse_lb_bms_e016
cells_parsed = refl
