-- ===== src/Parse/Fields.antt =====
-- The values that the parsers of ESP_AKS/lib/CanParse/CanParse.cpp give.
use tufan_aks.Base.{
  ℕ, zero, suc, ◌+◌, ◌-◌, ◌*◌, ◌/◌, ◌%◌, ◌≡◌, ◌≤◌, ◌<◌, Bool, true, false, ◌&&◌, if◌then◌else◌,
  Option, none, some, List, [], ◌∷◌, All, arith, leb, ltb, ◌∙◌, length, get_or, set, get_or-set,
  length-set, ap,
}
use tufan_aks.Base.Int.{ℤ, pos, negsuc, ◌≤ℤ◌, neg_ℕ, scale}
use tufan_aks.Base.Words.{signed16}
use tufan_aks.Data.{TelemetryData}
use tufan_aks.Parse.{
  CanFrame, word, parse_lb_bms_e000, parse_lb_bms_e001, parse_lb_bms_e015, parse_lb_bms_e016,
  parse_lb_bms_e017, parse_lb_bms_e018, parse_lb_bms_e019, parse_lb_bms_e020, set_cells,
  parse_cells,
}

-- The eight bytes of four words, each high byte first.
abbrev pub four_words : ℕ → ℕ → ℕ → ℕ → List ℕ
four_words a b c d =
    (a / 256)
    ∷ (a % 256)
    ∷ (b / 256)
    ∷ (b % 256)
    ∷ (c / 256)
    ∷ (c % 256)
    ∷ (d / 256)
    ∷ (d % 256)
    ∷ []

-- A pattern of 16 bits for a signed value.
abbrev pub pattern16 : ℤ → ℕ
pattern16 (pos n) = n
pattern16 (negsuc n) = 65535 - n

abbrev pub InInt16 : ℤ → Type 0
InInt16 z = (neg_ℕ 32768 ≤ℤ z) × (z ≤ℤ pos 32767)

signed16-pattern16 : (z : ℤ) → InInt16 z → signed16 (pattern16 z) ≡ z
signed16-pattern16 (pos n) h = ground arith
signed16-pattern16 (negsuc n) h = ground arith

words_of :
    (f : CanFrame) (a b c d : ℕ)
    → f.bytes ≡ four_words a b c d
    → (word f 0 ≡ a) × (word f 2 ≡ b) × (word f 4 ≡ c) × (word f 6 ≡ d)
words_of f a b c d h = rw h (omega arith, omega arith, omega arith, omega arith)

-- A full E000 frame that carries a current in tenths of an ampere, a pack voltage in tenths of a
-- volt and two states of charge is read back as these, the current in hundredths of an ampere;
-- the BMS data are marked valid, and no other field is touched.
pub parse-e000_encoded :
    (f : CanFrame) (i : ℤ) (v soc soc2 : ℕ) (out : TelemetryData)
    → InInt16 i
    → f.data_length_code ≡ 8
    → f.bytes ≡ four_words (pattern16 i) v soc soc2
    → parse_lb_bms_e000 f out
      ≡ some (record out {
        bms_current_centi_a = scale 10 i;
        bms_pack_voltage_deci_v = v;
        bms_soc_hundredths = soc;
        bms_soc2_hundredths = soc2;
        bms_data_valid = true;
      })
unfolding parse_lb_bms_e000
parse-e000_encoded f i v soc soc2 out r n b =
    ground (arith, words_of f (pattern16 i) v soc soc2 b, signed16-pattern16 i r)

-- The bytes of a frame, as the controller delivers them.
abbrev pub AreBytes : List ℕ → Type 0
AreBytes = All (λ b. b < 256)

pub get_or-AreBytes : (l : List ℕ) (i : ℕ) → AreBytes l → get_or l i 0 < 256
get_or-AreBytes [] i h = omega arith
get_or-AreBytes (x ∷ xs) zero h = h.0
get_or-AreBytes (x ∷ xs) (suc i) h = get_or-AreBytes xs i h.1

pub word_lt : (f : CanFrame) (i : ℕ) → AreBytes f.bytes → word f i < 65536
word_lt f i h = omega (arith, get_or-AreBytes f.bytes i h, get_or-AreBytes f.bytes (i + 1) h)

-- Every accepted E001 frame of bytes has at least eight data bytes and gives cell extremes that fit 16
-- bits and temperatures that fit 8 bits with the lowest at most the highest; the cells' own voltages,
-- the pack voltage and the validity of the data stay as they were.
pub parse-e001_ranges :
    (f : CanFrame) (out d : TelemetryData)
    → AreBytes f.bytes
    → parse_lb_bms_e001 f out ≡ some d
    → (8 ≤ f.data_length_code)
      × (d.bms_cell_voltage_min_deci_mv < 65536)
      × (d.bms_cell_voltage_max_deci_mv < 65536)
      × (d.bms_cell_voltage_avg_deci_mv < 65536)
      × (neg_ℕ 128 ≤ℤ d.bms_temp_lowest_c)
      × (d.bms_temp_lowest_c ≤ℤ d.bms_temp_highest_c)
      × (d.bms_temp_highest_c ≤ℤ pos 127)
      × (d.bms_cell_voltages ≡ out.bms_cell_voltages)
      × (d.bms_pack_voltage_deci_v ≡ out.bms_pack_voltage_deci_v)
      × (d.bms_data_valid ≡ out.bms_data_valid)
unfolding parse_lb_bms_e001
parse-e001_ranges f out d h e = ground (
  arith,
  word_lt f 0 h,
  word_lt f 2 h,
  word_lt f 4 h,
  get_or-AreBytes f.bytes 6 h,
  get_or-AreBytes f.bytes 7 h,
)

-- The parser of each group of four cells: group g holds the cells 4 g to 4 g + 3.
abbrev pub parse_group : ℕ → CanFrame → TelemetryData → Option TelemetryData
parse_group zero = parse_lb_bms_e015
parse_group (suc zero) = parse_lb_bms_e016
parse_group (suc (suc zero)) = parse_lb_bms_e017
parse_group (suc (suc (suc zero))) = parse_lb_bms_e018
parse_group (suc (suc (suc (suc zero)))) = parse_lb_bms_e019
parse_group (suc (suc (suc (suc (suc n))))) = parse_lb_bms_e020

-- What a cell holds after the frame of the group that starts at `first`.
abbrev pub cell_after : ℕ → CanFrame → List ℕ → ℕ → ℕ
cell_after first f cells j =
    if leb first j && ltb j (first + 4) then word f ((j - first) * 2) / 10 else get_or cells j 0

get_or-set_cells :
    (first j : ℕ) (f : CanFrame) (cells : List ℕ)
    → first + 3 < length cells
    → get_or (set_cells first f cells) j 0 ≡ cell_after first f cells j
get_or-set_cells first j f cells h =
    let a = set cells first (word f 0 / 10) in
    let b = set a (first + 1) (word f 2 / 10) in
    let c = set b (first + 2) (word f 4 / 10) in
    let la = length-set cells first (word f 0 / 10) in
    let lb = length-set a (first + 1) (word f 2 / 10) in
    let lc = length-set b (first + 2) (word f 4 / 10) in
    get_or-set c (first + 3) j (word f 6 / 10) (omega arith)
    ∙ ground (
      arith,
      get_or-set b (first + 2) j (word f 4 / 10) (omega arith),
      get_or-set a (first + 1) j (word f 2 / 10) (omega arith),
      get_or-set cells first j (word f 0 / 10) (omega arith),
    )

length-set_cells :
    (first : ℕ) (f : CanFrame) (cells : List ℕ) → length (set_cells first f cells) ≡ length cells
length-set_cells first f cells =
    let a = set cells first (word f 0 / 10) in
    let b = set a (first + 1) (word f 2 / 10) in
    let c = set b (first + 2) (word f 4 / 10) in
    length-set c (first + 3) (word f 6 / 10)
    ∙ length-set b (first + 2) (word f 4 / 10)
    ∙ length-set a (first + 1) (word f 2 / 10)
    ∙ length-set cells first (word f 0 / 10)

-- What a guarded result is, if there is one.
unguard : {A : Type 0} (short : Bool) {x y : A} → (if short then none else some x) ≡ some y → y ≡ x
unguard true h = cc
unguard false h = cc

full :
    (first : ℕ) (f : CanFrame) (out : TelemetryData)
    → 8 ≤ f.data_length_code
    → parse_cells first f out
      ≡ some (record out { bms_cell_voltages = set_cells first f out.bms_cell_voltages })
full first f out h = ground arith

parse_cells-some :
    (first : ℕ) (f : CanFrame) (out d : TelemetryData)
    → parse_cells first f out ≡ some d
    → d.bms_cell_voltages ≡ set_cells first f out.bms_cell_voltages
parse_cells-some first f out d h =
    ap (λ t. t.bms_cell_voltages) (unguard (ltb f.data_length_code 8) h)

parse_cells-cells :
    (first j : ℕ) (f : CanFrame) (out d : TelemetryData)
    → first < 21
    → length out.bms_cell_voltages ≡ 24
    → parse_cells first f out ≡ some d
    → (get_or d.bms_cell_voltages j 0 ≡ cell_after first f out.bms_cell_voltages j)
      × (length d.bms_cell_voltages ≡ 24)
parse_cells-cells first j f out d lt n h =
    let e = parse_cells-some first f out d h in
    (
      ap (λ l. get_or l j 0) e ∙ get_or-set_cells first j f out.bms_cell_voltages (omega arith),
      ap length e ∙ length-set_cells first f out.bms_cell_voltages ∙ n,
    )

-- A frame with all its eight bytes is accepted.
pub parse_group-full :
    (g : ℕ) (f : CanFrame) (out : TelemetryData)
    → 8 ≤ f.data_length_code
    → (d : TelemetryData) × (parse_group g f out ≡ some d)
unfolding parse_lb_bms_e015 parse_lb_bms_e016 parse_lb_bms_e017 parse_lb_bms_e018 parse_lb_bms_e019
    parse_lb_bms_e020
parse_group-full zero f out h = (_, full 0 f out h)
parse_group-full (suc zero) f out h = (_, full 4 f out h)
parse_group-full (suc (suc zero)) f out h = (_, full 8 f out h)
parse_group-full (suc (suc (suc zero))) f out h = (_, full 12 f out h)
parse_group-full (suc (suc (suc (suc zero)))) f out h = (_, full 16 f out h)
parse_group-full (suc (suc (suc (suc (suc g))))) f out h = (_, full 20 f out h)

-- An accepted frame of group g below 6, with 24 cells in the structure, sets exactly the cells 4 g
-- to 4 g + 3, each to its word divided by 10, in order; the number of cells and every other cell
-- are as they were.
pub parse_group_cells :
    (g j : ℕ) (f : CanFrame) (out d : TelemetryData)
    → g < 6
    → length out.bms_cell_voltages ≡ 24
    → parse_group g f out ≡ some d
    → (get_or d.bms_cell_voltages j 0 ≡ cell_after (4 * g) f out.bms_cell_voltages j)
      × (length d.bms_cell_voltages ≡ 24)
unfolding parse_lb_bms_e015 parse_lb_bms_e016 parse_lb_bms_e017 parse_lb_bms_e018 parse_lb_bms_e019
    parse_lb_bms_e020
parse_group_cells zero j f out d lt n h = parse_cells-cells 0 j f out d (omega arith) n h
parse_group_cells (suc zero) j f out d lt n h = parse_cells-cells 4 j f out d (omega arith) n h
parse_group_cells (suc (suc zero)) j f out d lt n h =
    parse_cells-cells 8 j f out d (omega arith) n h
parse_group_cells (suc (suc (suc zero))) j f out d lt n h =
    parse_cells-cells 12 j f out d (omega arith) n h
parse_group_cells (suc (suc (suc (suc zero)))) j f out d lt n h =
    parse_cells-cells 16 j f out d (omega arith) n h
parse_group_cells (suc (suc (suc (suc (suc zero))))) j f out d lt n h =
    parse_cells-cells 20 j f out d (omega arith) n h
parse_group_cells (suc (suc (suc (suc (suc (suc g)))))) j f out d lt n h = absurd (omega arith)
