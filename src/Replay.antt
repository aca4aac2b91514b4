-- ===== src/Replay.antt =====
-- ESP_AKS/tools/can_replay/can_replay.cpp, which runs the parsers of CanParse over a recorded log. A log
-- is the list of its lines, a line the list of its character codes. The file system is the parameter of
-- `run_main`; what is printed is left out, with the count of broken lines that is only printed, but
-- not the exit code, which tells the verdict.
pub mod Text
pub mod Clean
mod Checks
mod Lines
pub mod Verdict
mod Tests
use tufan_aks.Base.{
  ℕ, zero, suc, ◌+◌, ◌%◌, ◌==◌, ltb, leb, Bool, true, false, not, ◌&&◌, ◌||◌, if◌then◌else◌, Option,
  none, some, List, [], ◌∷◌, ◌++◌, map, length, get_or, set, replicate, ◌⊎◌, inl, inr,
}
use tufan_aks.Base.Decimal.{codes, eqb_text}
use tufan_aks.Base.Int.{ℤ, pos, negsuc, neg_ℕ, eqb_ℤ}
use tufan_aks.Data.{TelemetryData, zero_telemetry, ChargerCommand}
use tufan_aks.Parse.{CanFrame, byte, parse_lb_bms_e000, parse_charger_1806e5f4}
use tufan_aks.Replay.Text.{trim, split, tokens, strtoul_16, strtol_10}

pub record Frame : Type 0 where
  pub is_ext : Bool
  pub id : ℕ
  pub msg : CanFrame
  pub line_no : ℕ

pub data LineError : Type 0 where
  wrong_field_count : ℕ → LineError
  unknown_format : List ℕ → LineError
  invalid_dlc : List ℕ → LineError
  too_many_bytes : LineError
  wrong_byte_count : ℕ → ℕ → LineError

pub data Fault : Type 0 where
  bad_line : LineError → Fault
  short_e000 : Fault
  wrong_pack_voltage : ℕ → Fault
  wrong_bytes : Fault
  wrong_current : ℤ → Fault
  short_charger : Fault
  wrong_setpoints : ℕ → ℕ → Fault

-- The key of a frame in the reports is its format with its identifier.
pub record Stats : Type 0 where
  pub total : ℕ
  pub counts_by_id : List ((Bool × ℕ) × ℕ)
  pub unknown_ids : List (Bool × ℕ)
  pub violations : List (ℕ × Fault)
  pub violation_count : ℕ

abbrev pub new_stats : Stats
new_stats = record {
  total = 0;
  counts_by_id = [];
  unknown_ids = [];
  violations = [];
  violation_count = 0;
}

-- The report keeps the first 20.
pub add_violation : ℕ → Fault → Stats → Stats
add_violation line_no v st = record st {
  violation_count = st.violation_count + 1;
  violations =
      if ltb (length st.violations) 20 then st.violations ++ (line_no, v) ∷ [] else st.violations;
}

abbrev pub eqb_key : Bool × ℕ → Bool × ℕ → Bool
eqb_key (true, a) (true, b) = a == b
eqb_key (false, a) (false, b) = a == b
eqb_key (true, a) (false, b) = false
eqb_key (false, a) (true, b) = false

abbrev pub count_key : Bool × ℕ → List ((Bool × ℕ) × ℕ) → List ((Bool × ℕ) × ℕ)
count_key key [] = (key, 1) ∷ []
count_key key ((k, n) ∷ counts) =
    if eqb_key key k then (k, n + 1) ∷ counts else (k, n) ∷ count_key key counts

abbrev pub insert_key : Bool × ℕ → List (Bool × ℕ) → List (Bool × ℕ)
insert_key key [] = key ∷ []
insert_key key (k ∷ keys) = if eqb_key key k then k ∷ keys else k ∷ insert_key key keys

abbrev pub read_format : List ℕ → Option Bool
read_format s =
    if eqb_text s (codes "EXT")
    then some true
    else if eqb_text s (codes "STD")
    then some false
    else none

abbrev pub read_dlc : ℤ → Option ℕ
read_dlc (pos n) = if leb n 8 then some n else none
read_dlc (negsuc n) = none

-- The bytes, stored from the index n on; `none` at a ninth.
pub read_bytes : List (List ℕ) → ℕ → List ℕ → Option (ℕ × List ℕ)
read_bytes [] n data_bytes = some (n, data_bytes)
read_bytes (t ∷ ts) n data_bytes = elim (leb 8 n) [
  | true ↦ none
  | false ↦ read_bytes ts (n + 1) (set data_bytes n (strtoul_16 t % 256))
]

pub parse_bytes : Bool → ℕ → ℕ → ℕ → List ℕ → LineError ⊎ Frame
parse_bytes is_ext id dlc line_no hex = elim (read_bytes (tokens hex) 0 (replicate 8 0)) [
  | none ↦ inl too_many_bytes
  | some read ↦
      if not (read.0 == dlc)
      then inl (wrong_byte_count dlc (read.0))
      else inr (record {
        is_ext = is_ext;
        id = id;
        msg = record {
          identifier = id;
          extd = false;
          rtr = false;
          data_length_code = dlc;
          bytes = read.1;
        };
        line_no = line_no;
      })
]

pub parse_fields : List (List ℕ) → ℕ → LineError ⊎ Frame
parse_fields parts line_no = elim (read_format (get_or parts 0 [])) [
  | none ↦ inl (unknown_format (get_or parts 0 []))
  | some is_ext ↦ elim (read_dlc (strtol_10 (get_or parts 2 []))) [
    | none ↦ inl (invalid_dlc (get_or parts 2 []))
    | some dlc ↦
        parse_bytes is_ext (strtoul_16 (get_or parts 1 []) % 4294967296) dlc line_no
          (get_or parts 3 [])
  ]
]

pub parse_line : List ℕ → ℕ → LineError ⊎ Frame
parse_line line line_no =
    let parts = map trim (split (λ c. c == b'|') line) in
    if not (length parts == 4)
    then inl (wrong_field_count (length parts))
    else parse_fields parts line_no

abbrev pub check : Bool → ℕ → Fault → Stats → Stats
check holds line_no v st = if holds then st else add_violation line_no v st

pub process_e000 : Frame → Bool → Stats → Stats
process_e000 f session_asserts st = elim (parse_lb_bms_e000 f.msg zero_telemetry) [
  | none ↦ add_violation f.line_no short_e000 st
  | some out ↦
      if not session_asserts
      then st
      else check
          (eqb_ℤ out.bms_current_centi_a (neg_ℕ 10) || eqb_ℤ out.bms_current_centi_a (neg_ℕ 20))
          f.line_no (wrong_current out.bms_current_centi_a)
          (check (byte f.msg 2 == 0x03 && byte f.msg 3 == 0x16) f.line_no wrong_bytes (
            check (out.bms_pack_voltage_deci_v == 790) f.line_no
              (wrong_pack_voltage out.bms_pack_voltage_deci_v) st))
]

pub process_charger : Frame → Bool → Stats → Stats
process_charger f session_asserts st = elim (parse_charger_1806e5f4 f.msg) [
  | none ↦ add_violation f.line_no short_charger st
  | some cmd ↦
      if not session_asserts
      then st
      else check
          (cmd.charge_voltage_setpoint_deci_v == 880 && cmd.charge_current_setpoint_deci_a == 1000)
          f.line_no
          (wrong_setpoints cmd.charge_voltage_setpoint_deci_v cmd.charge_current_setpoint_deci_a) st
]

-- The identifiers whose frames are parsed with no check of what comes out.
abbrev pub is_only_parsed : ℕ → Bool
is_only_parsed id =
    id == 0xE001
    || id == 0xE002
    || id == 0xE003
    || id == 0xE004
    || id == 0xE005
    || id == 0xE032
    || id == 0xE033

abbrev pub mark_unknown : Frame → Stats → Stats
mark_unknown f st = record st { unknown_ids = insert_key (f.is_ext, f.id) st.unknown_ids }

pub process_ext_frame : Frame → Bool → Stats → Stats
process_ext_frame f session_asserts st =
    if f.id == 0xE000
    then process_e000 f session_asserts st
    else if f.id == 0x1806E5F4
    then process_charger f session_asserts st
    else if is_only_parsed f.id
    then st
    else mark_unknown f st

pub count_frame : Frame → Stats → Stats
count_frame f st = record st {
  total = st.total + 1;
  counts_by_id = count_key (f.is_ext, f.id) st.counts_by_id;
}

pub process_frame : Bool → Frame → Stats → Stats
process_frame session_asserts f st =
    if f.is_ext
    then process_ext_frame f session_asserts (count_frame f st)
    else if f.id == 0
    then count_frame f st
    else mark_unknown f (count_frame f st)

abbrev pub is_skipped : List ℕ → Bool
is_skipped [] = true
is_skipped (c ∷ s) = c == b'#'

pub process_line : Bool → ℕ → List ℕ → Stats → Stats
process_line session_asserts line_no line st =
    if is_skipped (trim line) then st else elim (parse_line (trim line) line_no) [
      | inl err ↦ add_violation line_no (bad_line err) st
      | inr f ↦ process_frame session_asserts f st
    ]

-- The lines after the first `line_no` ones.
pub replay_from : Bool → ℕ → List (List ℕ) → Stats → Stats
replay_from session_asserts line_no [] st = st
replay_from session_asserts line_no (line ∷ lines) st =
    replay_from session_asserts (line_no + 1) lines
      (process_line session_asserts (line_no + 1) line st)

abbrev pub exit_code : Stats → ℕ
exit_code st = if ltb 0 st.violation_count then 1 else 0

-- Whether the checks of the session are on, and the path: the last argument that is no option.
abbrev pub read_arguments : List (List ℕ) → Bool × List ℕ → Bool × List ℕ
read_arguments [] options = options
read_arguments (arg ∷ args) options =
    read_arguments args
      (if eqb_text arg (codes "--generic") then (false, options.1) else (options.0, arg))

pub run_main : (List ℕ → Option (List (List ℕ))) → List (List ℕ) → ℕ
run_main open_log args =
    let options = read_arguments args (true, []) in
    if eqb_text (options.1) [] then 2 else elim (open_log (options.1)) [
      | none ↦ 2
      | some lines ↦ exit_code (replay_from (options.0) 0 lines new_stats)
    ]
