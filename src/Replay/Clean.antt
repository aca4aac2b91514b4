-- ===== src/Replay/Clean.antt =====
-- The logs that tools/can_replay/can_replay.cpp lets pass, described with no count of violations and
-- with no use of its parser: of the tool's code only the reading of text is used.
use tufan_aks.Base.{
  ℕ, ◌+◌, ◌-◌, ◌%◌, ◌==◌, ◌≤◌, ◌≡◌, ◌≢◌, ◌⊎◌, Bool, true, false, List, [], ◌∷◌, ◌++◌, map, length,
  replicate,
}
use tufan_aks.Base.Decimal.{codes}
use tufan_aks.Base.Int.{ℤ, pos, neg_ℕ, scale}
use tufan_aks.Base.Words.{signed16}
use tufan_aks.Parse.{CanFrame, byte, word}
use tufan_aks.Replay.{Frame, is_skipped}
use tufan_aks.Replay.Text.{trim, split, tokens, strtoul_16, strtol_10}

-- The word for the format of a frame.
abbrev pub format : Bool → List ℕ
format true = codes "EXT"
format false = codes "STD"

-- The frame of an identifier and of the texts of its bytes: the low 32 and the low 8 bits of what strtoul
-- reads, so a text that is no number stands for 0. What is missing of the eight bytes is 0.
abbrev pub frame_of : Bool → ℕ → List (List ℕ) → ℕ → Frame
frame_of is_ext id texts line_no = record {
  is_ext = is_ext;
  id = id;
  msg = record {
    identifier = id;
    extd = false;
    rtr = false;
    data_length_code = length texts;
    bytes = map (λ t. strtoul_16 t % 256) texts ++ replicate (8 - length texts) 0;
  };
  line_no = line_no;
}

-- A line of exactly four fields: EXT or STD, an identifier, a length, and as many bytes as the length says,
-- at most eight; and its frame.
unfoldable pub WellFormed : List ℕ → ℕ → Frame → Type 0
WellFormed line line_no f =
    (is_ext : Bool) × (id dlc hex : List ℕ) × (map trim (split (λ c. c == b'|') line)
      ≡ format is_ext ∷ id ∷ dlc ∷ hex ∷ [])
    × (strtol_10 dlc ≡ pos (length (tokens hex)))
    × (length (tokens hex) ≤ 8)
    × (f ≡ frame_of is_ext (strtoul_16 id % 4294967296) (tokens hex) line_no)

-- The current of an E000 frame, in hundredths of an ampere.
unfoldable pub current : CanFrame → ℤ
current m = scale 10 (signed16 (word m 0))

unfoldable pub CleanE000 : Bool → CanFrame → Type 0
CleanE000 session_asserts m =
    8 ≤ m.data_length_code
    × ((session_asserts ≡ false)
        ⊎ ((byte m 2 ≡ 0x03)
            × (byte m 3 ≡ 0x16)
            × ((current m ≡ neg_ℕ 10) ⊎ (current m ≡ neg_ℕ 20))))

unfoldable pub CleanCharger : Bool → CanFrame → Type 0
CleanCharger session_asserts m =
    4 ≤ m.data_length_code × ((session_asserts ≡ false) ⊎ ((word m 0 ≡ 880) × (word m 2 ≡ 1000)))

-- A frame that no check refuses: only E000 and the charger's extended frames are checked.
unfoldable pub CleanFrame : Bool → Frame → Type 0
CleanFrame session_asserts f =
    (f.is_ext ≡ false)
    ⊎ (((f.id ≡ 0xE000) × CleanE000 session_asserts f.msg)
        ⊎ (((f.id ≡ 0x1806E5F4) × CleanCharger session_asserts f.msg)
            ⊎ ((f.id ≢ 0xE000) × (f.id ≢ 0x1806E5F4))))

unfoldable pub CleanLine : Bool → ℕ → List ℕ → Type 0
CleanLine session_asserts line_no line =
    (is_skipped (trim line) ≡ true)
    ⊎ ((f : Frame) × WellFormed (trim line) line_no f × CleanFrame session_asserts f)

unfoldable pub CleanLog : Bool → ℕ → List (List ℕ) → Type 0
CleanLog session_asserts line_no [] = Unit
CleanLog session_asserts line_no (line ∷ lines) =
    CleanLine session_asserts (line_no + 1) line × CleanLog session_asserts (line_no + 1) lines
