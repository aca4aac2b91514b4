-- ===== src/Can/Cells.antt =====
-- The timeout of the cell voltages in ESP_AKS/lib/CanManager/CanManager.cpp between the frames of a
-- set: the six cell frames share one time stamp and one mask of the groups that were seen.
use tufan_aks.Base.{
  if◌then◌else◌, ℕ, zero, suc, ◌+◌, ◌*◌, ◌/◌, ◌==◌, ◌≡◌, ◌≤◌, ◌<◌, ◌∙◌, refl, ap, subst, arith,
  true, false, length, get_or,
}
use tufan_aks.Base.Words.{add32, u32_mod, sub32-add32}
use tufan_aks.Config.{can_cell_voltage_timeout_ms}
use tufan_aks.Parse.{CanFrame, word}
use tufan_aks.Can.{CanManager}
use tufan_aks.Can.Update.{update_cell_voltage_validity}
use tufan_aks.Can.Assembly.{
  handle_group, handled, handled_tick, handle_group-Stored, received_groups, stored, low_mask,
  Stored, cells_assembled,
}

module _ (ms_to_ticks : ℕ → ℕ) (m : CanManager) (d : ℕ) where
  -- The manager after the update, d ticks after its last cell frame.
  abbrev pub timed_out : CanManager
  timed_out = update_cell_voltage_validity ms_to_ticks (add32 m.last_cell_voltage_tick d) m

  module _ (hm : m.mutex ≡ true) (hs : m.has_seen_cell_voltage ≡ true)
      (ht : m.last_cell_voltage_tick < u32_mod) (hd : d < u32_mod)
      (hl : ms_to_ticks can_cell_voltage_timeout_ms ≤ d) where
    timeout_kept :
        m.telemetry.cell_voltage_data_valid ≡ false
        → (timed_out.telemetry.cell_voltage_timeout_active ≡ true)
          × (timed_out.telemetry.cell_voltage_data_valid ≡ false)
          × (timed_out.cell_voltage_seen_mask ≡ m.cell_voltage_seen_mask)
          × (timed_out.telemetry.bms_cell_voltages ≡ m.telemetry.bms_cell_voltages)
    unfolding update_cell_voltage_validity
    timeout_kept v = let e = sub32-add32 m.last_cell_voltage_tick d ht hd in ground arith

    timeout_reset :
        m.telemetry.cell_voltage_data_valid ≡ true
        → (timed_out.telemetry.cell_voltage_data_valid ≡ false)
          × (timed_out.cell_voltage_seen_mask ≡ 0)
          × (timed_out.telemetry.bms_cell_voltages ≡ m.telemetry.bms_cell_voltages)
    unfolding update_cell_voltage_validity
    timeout_reset v = let e = sub32-add32 m.last_cell_voltage_tick d ht hd in ground arith

low_mask_ne_full : (g : ℕ) → g < 6 → (low_mask g == 0x3F) ≡ false
low_mask_ne_full zero h = refl
low_mask_ne_full (suc zero) h = refl
low_mask_ne_full (suc (suc zero)) h = refl
low_mask_ne_full (suc (suc (suc zero))) h = refl
low_mask_ne_full (suc (suc (suc (suc zero)))) h = refl
low_mask_ne_full (suc (suc (suc (suc (suc zero))))) h = refl
low_mask_ne_full (suc (suc (suc (suc (suc (suc g)))))) h = absurd (omega arith)

module _ (now : ℕ → ℕ) (f : ℕ → CanFrame) where
  -- The managers after the frames of the groups k, k + 1, ..., n of them.
  abbrev pub received_from : ℕ → ℕ → CanManager → CanManager
  received_from k zero m = m
  received_from k (suc n) m = received_from (suc k) n (handle_group k (now k) (f k) m)

module _ (now : ℕ → ℕ) (f : ℕ → CanFrame) (h8 : (i : ℕ) → 8 ≤ CanFrame.data_length_code (f i)) where
  from_Stored :
      (k n e : ℕ) (m : CanManager)
      → k + n ≡ e
      → e ≤ 6
      → Stored f k m
      → Stored f e (received_from now f k n m)
  from_Stored k zero e m h l s = subst (λ x. Stored f x m) (omega arith) s
  from_Stored k (suc n) e m h l s =
      from_Stored (suc k) n e (handle_group k (now k) (f k) m) (omega arith) l
        (handle_group-Stored k (now k) f m (omega arith) (h8 k) s)

  -- The sixth group makes the data valid.
  full-valid :
      (g t : ℕ) (m : CanManager)
      → suc g ≡ 6
      → Stored f g m
      → (handle_group g t (f g) m).telemetry.cell_voltage_data_valid ≡ true
  full-valid g t m e s =
      let c = handled g t 0 (f g) m (omega arith) (h8 g) s.0 in
      let k : (handle_group g t (f g) m).cell_voltage_seen_mask ≡ 0x3F =
        (handle_group-Stored g t f m (omega arith) (h8 g) s).1 ∙ ap low_mask e in
      c.3 ∙ ap (λ j. if j == 0x3F then true else m.telemetry.cell_voltage_data_valid) k

  from-valid :
      (k n : ℕ) (m : CanManager)
      → k + n ≡ 5
      → Stored f k m
      → (received_from now f k (suc n) m).telemetry.cell_voltage_data_valid ≡ true
  from-valid k zero m h s = full-valid k (now k) m (omega arith) s
  from-valid k (suc n) m h s =
      from-valid (suc k) n (handle_group k (now k) (f k) m) (omega arith)
        (handle_group-Stored k (now k) f m (omega arith) (h8 k) s)

  received-tick :
      (m : CanManager) (g : ℕ)
      → g < 6
      → m.mutex ≡ true
      → let t = received_groups (suc g) now f m in
        (t.has_seen_cell_voltage ≡ true) × (t.last_cell_voltage_tick ≡ now g) × (t.mutex ≡ true)
  unfolding received_groups
  received-tick m zero h e = let t = handled_tick 0 (now 0) (f 0) m h (h8 0) in (t.0, t.1, t.2 ∙ e)
  received-tick m (suc g) h e =
      let t =
        handled_tick (suc g) (now (suc g)) (f (suc g)) (received_groups (suc g) now f m) h
          (h8 (suc g)) in
      (t.0, t.1, t.2 ∙ (received-tick m g (omega arith) e).2)

  module _ (m : CanManager) (h24 : length m.telemetry.bms_cell_voltages ≡ 24)
      (h0 : m.cell_voltage_seen_mask ≡ 0) where
    -- Fewer than six groups do not.
    few-invalid :
        (g : ℕ)
        → g < 6
        → m.telemetry.cell_voltage_data_valid ≡ false
        → (received_groups g now f m).telemetry.cell_voltage_data_valid ≡ false
    unfolding received_groups
    few-invalid zero h v = v
    few-invalid (suc g) h v =
        let t = received_groups g now f m in
        let s = stored g now f m (omega arith) h8 h24 h0 in
        let c = handled g (now g) 0 (f g) t (omega arith) (h8 g) s.0 in
        c.3
        ∙ ap (λ j. if j == 0x3F then true else t.telemetry.cell_voltage_data_valid)
            (handle_group-Stored g (now g) f t (omega arith) (h8 g) s).1
        ∙ ap (λ b. if b then true else t.telemetry.cell_voltage_data_valid)
            (low_mask_ne_full (suc g) h)
        ∙ few-invalid g (omega arith) v

-- A manager with the mutex created, 24 cells, no group seen and no valid cell data; frames of eight bytes
-- or more, at ticks below 2^32; and an update d ticks after the last frame received, d below 2^32 and at
-- least the timeout, with the clock free to wrap. If the update comes after the first one to five of
-- the frames E015 to E020 in order, it reports the timeout and the data are not valid; yet after the
-- remaining frames they are valid, and each of the 24 cells is the word of its frame divided by ten,
-- those of before the timeout included. If it comes after all six, the data are no longer valid, and any
-- further five or fewer first frames of a set, at any ticks, do not make them valid.
pub set_over_timeout :
    (ms_to_ticks : ℕ → ℕ) (now now' : ℕ → ℕ) (f f' : ℕ → CanFrame) (m : CanManager) (d k n : ℕ)
    → ((i : ℕ) → 8 ≤ CanFrame.data_length_code (f i))
    → ((i : ℕ) → 8 ≤ CanFrame.data_length_code (f' i))
    → ((i : ℕ) → now i < u32_mod)
    → length m.telemetry.bms_cell_voltages ≡ 24
    → m.cell_voltage_seen_mask ≡ 0
    → m.telemetry.cell_voltage_data_valid ≡ false
    → m.mutex ≡ true
    → k + n ≡ 4
    → d < u32_mod
    → ms_to_ticks can_cell_voltage_timeout_ms ≤ d
    → (i j g : ℕ) → i < 6
    → j < 4
    → g < 6
    → let p = timed_out ms_to_ticks (received_groups (suc k) now f m) d in
      let t = received_from now f (suc k) (suc n) p in
      let c = timed_out ms_to_ticks (received_groups 6 now f m) d in
      ((p.telemetry.cell_voltage_timeout_active ≡ true)
        × (p.telemetry.cell_voltage_data_valid ≡ false)
        × (t.telemetry.cell_voltage_data_valid ≡ true)
        × (get_or t.telemetry.bms_cell_voltages (4 * i + j) 0 ≡ word (f i) (2 * j) / 10))
      × ((c.telemetry.cell_voltage_data_valid ≡ false)
          × ((received_groups g now' f' c).telemetry.cell_voltage_data_valid ≡ false))
set_over_timeout ms_to_ticks now now' f f' m d k n h8 h8' hn h24 h0 hv hm e hd hl i j g hi hj hg =
    let r = received_groups (suc k) now f m in
    let rs = stored (suc k) now f m (omega arith) h8 h24 h0 in
    let rt = received-tick now f h8 m k (omega arith) hm in
    let a =
      timeout_kept ms_to_ticks r d rt.2 rt.0 (rt_lt k rt.1) hd hl
        (few-invalid now f h8 m h24 h0 (suc k) (omega arith) hv) in
    let p = timed_out ms_to_ticks r d in
    let ps : Stored f (suc k) p = (
      ap length a.3 ∙ rs.0,
      a.2 ∙ rs.1,
      λ x y hx hy. ap (λ v. get_or v (4 * x + y) 0) a.3 ∙ rs.2 x y hx hy,
    ) in
    let after = from_Stored now f h8 (suc k) (suc n) 6 p (omega arith) (omega arith) ps in
    let w = received_groups 6 now f m in
    let ws = stored 6 now f m (omega arith) h8 h24 h0 in
    let wt = received-tick now f h8 m 5 (omega arith) hm in
    let b =
      timeout_reset ms_to_ticks w d wt.2 wt.0 (rt_lt 5 wt.1) hd hl
        (cells_assembled now f m h8 h24 h0 0 0 (omega arith) (omega arith)).0 in
    (
      (a.0, a.1, from-valid now f h8 (suc k) n p (omega arith) ps, after.2 i j hi hj),
      (
        b.0,
        few-invalid now' f' h8' (timed_out ms_to_ticks w d) (ap length b.2 ∙ ws.0) b.1 g hg b.0,
      ),
    )
  where
    rt_lt : {t : ℕ} (x : ℕ) → t ≡ now x → t < u32_mod
    rt_lt {t} x h = let l = hn x in omega arith
