-- ===== src/Can/Assembly.antt =====
-- The 24 cell voltages put together from the six frames E015 to E020 by the handlers of
-- ESP_AKS/lib/CanManager/CanManager.cpp.
use Prim.Native.Nat.{bit_or}
use tufan_aks.Base.{
  ℕ, zero, suc, ◌+◌, ◌-◌, ◌*◌, ◌/◌, ◌^◌, ◌==◌, ◌≡◌, refl, ◌≤◌, ◌<◌, arith, true, false, ◌&&◌, leb,
  ltb, if◌then◌else◌, List, get_or, set, length, length-set, get_or-set, ◌∙◌, ap, sym, ◌⊎◌, inl,
  inr,
}
use tufan_aks.Data.{zero_telemetry}
use tufan_aks.Parse.{CanFrame, word}
use tufan_aks.Parse.Fields.{parse_group, parse_group-full, parse_group_cells, cell_after}
use tufan_aks.Can.{CanManager}
use tufan_aks.Can.Handle.{
  copy_cells, store_cells, store_parsed, handle_lb_bms_e015, handle_lb_bms_e016, handle_lb_bms_e017,
  handle_lb_bms_e018, handle_lb_bms_e019, handle_lb_bms_e020,
}

-- The handler of each group.
abbrev pub handle_group : ℕ → ℕ → CanFrame → CanManager → CanManager
handle_group zero = handle_lb_bms_e015
handle_group (suc zero) = handle_lb_bms_e016
handle_group (suc (suc zero)) = handle_lb_bms_e017
handle_group (suc (suc (suc zero))) = handle_lb_bms_e018
handle_group (suc (suc (suc (suc zero)))) = handle_lb_bms_e019
handle_group (suc (suc (suc (suc (suc n))))) = handle_lb_bms_e020

get_or-copy_cells :
    (first j : ℕ) (p cells : List ℕ)
    → first + 3 < length cells
    → get_or (copy_cells first p cells) j 0
      ≡ (if leb first j && ltb j (first + 4) then get_or p j 0 else get_or cells j 0)
get_or-copy_cells first j p cells h =
    let v0 = get_or p first 0 in
    let v1 = get_or p (first + 1) 0 in
    let v2 = get_or p (first + 2) 0 in
    let v3 = get_or p (first + 3) 0 in
    let a = set cells first v0 in
    let b = set a (first + 1) v1 in
    let c = set b (first + 2) v2 in
    let la = length-set cells first v0 in
    let lb = length-set a (first + 1) v1 in
    let lc = length-set b (first + 2) v2 in
    get_or-set c (first + 3) j v3 (omega arith)
    ∙ grind (
      arith,
      get_or-set b (first + 2) j v2 (omega arith),
      get_or-set a (first + 1) j v1 (omega arith),
      get_or-set cells first j v0 (omega arith),
    )

pub length-copy_cells :
    (first : ℕ) (p cells : List ℕ) → length (copy_cells first p cells) ≡ length cells
length-copy_cells first p cells =
    let v0 = get_or p first 0 in
    let v1 = get_or p (first + 1) 0 in
    let v2 = get_or p (first + 2) 0 in
    let a = set cells first v0 in
    let b = set a (first + 1) v1 in
    let c = set b (first + 2) v2 in
    length-set c (first + 3) (get_or p (first + 3) 0)
    ∙ length-set b (first + 2) v2
    ∙ length-set a (first + 1) v1
    ∙ length-set cells first v0

handle_group-parsed :
    (g now : ℕ) (f : CanFrame) (m : CanManager)
    → g < 6
    → handle_group g now f m ≡ store_parsed g now (parse_group g f zero_telemetry) m
unfolding handle_lb_bms_e015 handle_lb_bms_e016 handle_lb_bms_e017 handle_lb_bms_e018
    handle_lb_bms_e019 handle_lb_bms_e020
handle_group-parsed zero now f m h = refl
handle_group-parsed (suc zero) now f m h = refl
handle_group-parsed (suc (suc zero)) now f m h = refl
handle_group-parsed (suc (suc (suc zero))) now f m h = refl
handle_group-parsed (suc (suc (suc (suc zero)))) now f m h = refl
handle_group-parsed (suc (suc (suc (suc (suc zero))))) now f m h = refl
handle_group-parsed (suc (suc (suc (suc (suc (suc g)))))) now f m h = absurd (omega arith)

-- What the frame of group g does to a manager of 24 cells.
pub handled :
    (g now j : ℕ) (f : CanFrame) (m : CanManager)
    → g < 6
    → 8 ≤ f.data_length_code
    → length m.telemetry.bms_cell_voltages ≡ 24
    → let t = handle_group g now f m in
      (get_or t.telemetry.bms_cell_voltages j 0
        ≡ cell_after (4 * g) f m.telemetry.bms_cell_voltages j)
      × (length t.telemetry.bms_cell_voltages ≡ 24)
      × (t.cell_voltage_seen_mask ≡ bit_or m.cell_voltage_seen_mask (2 ^ g))
      × (t.telemetry.cell_voltage_data_valid ≡ (
          if t.cell_voltage_seen_mask == 0x3F then true else m.telemetry.cell_voltage_data_valid))
unfolding store_cells
handled g now j f m h h8 h24 =
    let r = parse_group-full g f zero_telemetry h8 in
    let d = r.0 in
    let e : handle_group g now f m ≡ store_cells g now d m =
      handle_group-parsed g now f m h ∙ ap (λ o. store_parsed g now o m) r.1 in
    let c = parse_group_cells g j f zero_telemetry d h refl r.1 in
    let q =
      get_or-copy_cells (4 * g) j d.bms_cell_voltages m.telemetry.bms_cell_voltages (omega arith) in
    let l = length-copy_cells (4 * g) d.bms_cell_voltages m.telemetry.bms_cell_voltages in
    (
      ap (λ t. get_or t.telemetry.bms_cell_voltages j 0) e ∙ q ∙ ground (arith, c.0),
      ap (λ t. length t.telemetry.bms_cell_voltages) e ∙ l ∙ h24,
      ap (λ t. t.cell_voltage_seen_mask) e,
      ap (λ t. t.telemetry.cell_voltage_data_valid) e
          ∙ ap (λ k. if k == 0x3F then true else m.telemetry.cell_voltage_data_valid)
              (sym (ap (λ t. t.cell_voltage_seen_mask) e)),
    )

pub handled_tick :
    (g now : ℕ) (f : CanFrame) (m : CanManager)
    → g < 6
    → 8 ≤ f.data_length_code
    → let t = handle_group g now f m in
      (t.has_seen_cell_voltage ≡ true) × (t.last_cell_voltage_tick ≡ now) × (t.mutex ≡ m.mutex)
unfolding store_cells
handled_tick g now f m h h8 =
    let r = parse_group-full g f zero_telemetry h8 in
    let e : handle_group g now f m ≡ store_cells g now r.0 m =
      handle_group-parsed g now f m h ∙ ap (λ o. store_parsed g now o m) r.1 in
    (ap (λ t. t.has_seen_cell_voltage) e, ap (λ t. t.last_cell_voltage_tick) e, ap (λ t. t.mutex) e)

-- The managers after the frames of the groups 0, 1, ... below g.
unfoldable pub received_groups : ℕ → (ℕ → ℕ) → (ℕ → CanFrame) → CanManager → CanManager
received_groups zero now f m = m
received_groups (suc g) now f m = handle_group g (now g) (f g) (received_groups g now f m)

abbrev pub low_mask : ℕ → ℕ
low_mask zero = 0
low_mask (suc g) = bit_or (low_mask g) (2 ^ g)

older_or_newest : {i g : ℕ} → i < suc g → (i < g) ⊎ (i ≡ g)
older_or_newest {i} {g} h = ground arith

cell_step :
    (g i k : ℕ) (f : ℕ → CanFrame) (cells : List ℕ)
    → k < 4
    → (i < g → get_or cells (4 * i + k) 0 ≡ word (f i) (2 * k) / 10)
    → (i < g) ⊎ (i ≡ g)
    → cell_after (4 * g) (f g) cells (4 * i + k) ≡ word (f i) (2 * k) / 10
cell_step g i k f cells hk old (inl l) = outside (old l)
  where
    out : leb (4 * g) (4 * i + k) ≡ false
    out = ground arith

    outside :
        get_or cells (4 * i + k) 0 ≡ word (f i) (2 * k) / 10
        → cell_after (4 * g) (f g) cells (4 * i + k) ≡ word (f i) (2 * k) / 10
    outside e =
        ap
          (λ b.
            if b && ltb (4 * i + k) (4 * g + 4)
            then word (f g) ((4 * i + k - 4 * g) * 2) / 10
            else get_or cells (4 * i + k) 0)
          out
        ∙ e
cell_step g i k f cells hk old (inr e) =
    ap (λ n. cell_after (4 * g) (f g) cells (4 * n + k)) e
    ∙ inside
    ∙ ap (λ n. word (f n) (2 * k) / 10) (sym e)
  where
    offset : (4 * g + k - 4 * g) * 2 ≡ 2 * k
    offset = omega arith

    test : (leb (4 * g) (4 * g + k) && ltb (4 * g + k) (4 * g + 4)) ≡ true
    test = ground arith

    inside : cell_after (4 * g) (f g) cells (4 * g + k) ≡ word (f g) (2 * k) / 10
    inside =
        ap
          (λ b. if b then word (f g) ((4 * g + k - 4 * g) * 2) / 10 else get_or cells (4 * g + k) 0)
          test
        ∙ ap (λ n. word (f g) n / 10) offset

-- The groups below g were seen: the cells below 4 g hold what their frames say.
abbrev pub Stored : (ℕ → CanFrame) → ℕ → CanManager → Type 0
Stored f g t =
    (length t.telemetry.bms_cell_voltages ≡ 24)
    × (t.cell_voltage_seen_mask ≡ low_mask g)
    × ((i k : ℕ)
        → i < g
        → k < 4
        → get_or t.telemetry.bms_cell_voltages (4 * i + k) 0 ≡ word (f i) (2 * k) / 10)

pub handle_group-Stored :
    (g now : ℕ) (f : ℕ → CanFrame) (t : CanManager)
    → g < 6
    → 8 ≤ CanFrame.data_length_code (f g)
    → Stored f g t
    → Stored f (suc g) (handle_group g now (f g) t)
handle_group-Stored g now f t h h8 r =
    let s = handled g now 0 (f g) t h h8 r.0 in
    (
      s.1,
      s.2 ∙ ap (λ k. bit_or k (2 ^ g)) r.1,
      λ i k hi hk.
          (handled g now (4 * i + k) (f g) t h h8 r.0).0
          ∙ cell_step g i k f t.telemetry.bms_cell_voltages hk (λ l. r.2 i k l hk)
              (older_or_newest hi),
    )

pub stored :
    (g : ℕ) (now : ℕ → ℕ) (f : ℕ → CanFrame) (m : CanManager)
    → g ≤ 6
    → ((i : ℕ) → 8 ≤ CanFrame.data_length_code (f i))
    → length m.telemetry.bms_cell_voltages ≡ 24
    → m.cell_voltage_seen_mask ≡ 0
    → Stored f g (received_groups g now f m)
unfolding received_groups
stored zero now f m h h8 h24 h0 = (h24, h0, λ i k hi hk. absurd (omega arith))
stored (suc g) now f m h h8 h24 h0 =
    handle_group-Stored g (now g) f (received_groups g now f m) (omega arith) (h8 g)
      (stored g now f m (omega arith) h8 h24 h0)

-- A pack of 24 cells whose set is empty, and the frames E015 to E020 in this order, each of
-- eight bytes or more, at any ticks: the cell voltages are then valid, there are 24 of them, and for
-- i < 6 and k < 4 the cell 4 i + k is the word k of the frame i, in tenths of a millivolt, rounded down
-- to millivolts.
pub cells_assembled :
    (now : ℕ → ℕ) (f : ℕ → CanFrame) (m : CanManager)
    → ((i : ℕ) → 8 ≤ CanFrame.data_length_code (f i))
    → length m.telemetry.bms_cell_voltages ≡ 24
    → m.cell_voltage_seen_mask ≡ 0
    → (i k : ℕ) → i < 6
    → k < 4
    → let t = received_groups 6 now f m in
      (t.telemetry.cell_voltage_data_valid ≡ true)
      × (length t.telemetry.bms_cell_voltages ≡ 24)
      × (get_or t.telemetry.bms_cell_voltages (4 * i + k) 0 ≡ word (f i) (2 * k) / 10)
unfolding received_groups
cells_assembled now f m h8 h24 h0 i k hi hk =
    let t = received_groups 5 now f m in
    let r = stored 5 now f m (omega arith) h8 h24 h0 in
    let s = stored 6 now f m (omega arith) h8 h24 h0 in
    let c = handled 5 (now 5) 0 (f 5) t (omega arith) (h8 5) r.0 in
    (
      c.3 ∙ ap (λ j. if j == 0x3F then true else t.telemetry.cell_voltage_data_valid) s.1,
      s.0,
      s.2 i k hi hk,
    )
