-- ===== src/Replay/Tests.antt =====
-- A log with a comment, a full E000 frame, a charger frame and a heartbeat passes. A line
-- with a wrong number of bytes or a negative length is refused, and so is one of a frame with no
-- bytes: nothing after its last bar is a field.
use tufan_aks.Base.{
  ℕ, ◌≡◌, refl, replicate, ◌↔◌, true, false, List, [], ◌∷◌, Option, some, inl, inr,
}
use tufan_aks.Base.Decimal.{codes}
use tufan_aks.Replay.{
  new_stats, parse_line, replay_from, exit_code, run_main, invalid_dlc, parse_fields, parse_bytes,
  read_bytes, process_line, process_frame, count_frame, process_ext_frame, process_e000,
  process_charger, add_violation, wrong_byte_count, wrong_field_count,
}
use tufan_aks.Parse.{parse_lb_bms_e000, parse_charger_1806e5f4}
use tufan_aks.Replay.Text.{trim, split, tokens, strtoul_16, strtol_10, read_number}
use tufan_aks.Replay.Clean.{CleanLog}
use tufan_aks.Replay.Verdict.{replay-passes}

abbrev session : List (List ℕ)
session =
    codes "# idle"
    ∷ codes ""
    ∷ codes "EXT | 0xE000     | 8 | FF FF 03 16 0F 5E 09 71"
    ∷ codes " EXT | 0x1806E5F4 | 8 | 03 70 03 E8 00 00 00 00 "
    ∷ codes "STD | 0x000      | 8 | 00 00 00 00 00 00 00 00"
    ∷ []

abbrev open_session : List ℕ → Option (List (List ℕ))
open_session path = some session

session_passes : run_main open_session (codes "session.log" ∷ []) ≡ 0
unfolding run_main replay_from process_line process_frame count_frame process_ext_frame process_e000
    process_charger add_violation parse_lb_bms_e000 parse_charger_1806e5f4 parse_line parse_fields
    parse_bytes read_bytes trim split tokens strtoul_16 strtol_10 read_number
session_passes = refl

no_path : run_main open_session (codes "--generic" ∷ []) ≡ 2
unfolding run_main
no_path = refl

short_frame :
    parse_line (codes "EXT | 0xE000 | 7 | FF FF 03 16 0F 5E 09 71") 3 ≡ inl (wrong_byte_count 7 8)
unfolding parse_line parse_fields parse_bytes read_bytes trim split tokens strtoul_16 strtol_10
    read_number
short_frame = refl

negative_dlc : parse_line (codes "EXT | 0xE000 | -1 | FF") 3 ≡ inl (invalid_dlc (codes "-1"))
unfolding parse_line parse_fields parse_bytes read_bytes trim split tokens strtoul_16 strtol_10
    read_number
negative_dlc = refl

no_bytes : parse_line (codes "EXT | 0xE000 | 0 |") 3 ≡ inl (wrong_field_count 3)
unfolding parse_line parse_fields parse_bytes read_bytes trim split tokens strtoul_16 strtol_10
    read_number
no_bytes = refl

replay-passes_example :
    (exit_code (replay_from true 0 session new_stats) ≡ 0) ↔ CleanLog true 0 session
replay-passes_example = replay-passes true session

-- A byte that is no number is read as 0.
no_number :
    parse_line (codes "STD | 0x000 | 1 | ZZ") 3
    ≡ inr (record {
      is_ext = false;
      id = 0;
      msg = record {
        identifier = 0;
        extd = false;
        rtr = false;
        data_length_code = 1;
        bytes = replicate 8 0;
      };
      line_no = 3;
    })
unfolding parse_line parse_fields parse_bytes read_bytes trim split tokens strtoul_16 strtol_10
    read_number
no_number = refl

-- The frames of the cell voltages are reported as unknown.
cells_unknown :
    (replay_from true 0
      (codes "EXT | 0xE015 | 1 | 01" ∷ codes "EXT | 0xE015 | 1 | 00" ∷ [])
      new_stats).unknown_ids
    ≡ (true, 0xE015) ∷ []
unfolding replay_from process_line process_frame count_frame process_ext_frame add_violation
    parse_line parse_fields parse_bytes read_bytes trim split tokens strtoul_16 strtol_10
    read_number
cells_unknown = refl
