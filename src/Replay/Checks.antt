-- ===== src/Replay/Checks.antt =====
-- The checks of tools/can_replay/can_replay.cpp on one frame: what each counts.
use tufan_aks.Base.{
  ℕ, ◌+◌, ◌≤◌, ◌<◌, ◌==◌, ◌≡◌, refl, ◌↔◌, ◌⊎◌, inl, inr, arith, ltb, Bool, true, false, ◌&&◌, ◌||◌,
  Bool-cases, ==_iff,
}
use tufan_aks.Base.Int.{ℤ, pos, negsuc, neg_ℕ, eqb_ℤ}
use tufan_aks.Parse.{CanFrame, byte, word, parse_lb_bms_e000, parse_charger_1806e5f4}
use tufan_aks.Replay.{
  Frame, Stats, Fault, add_violation, check, process_e000, process_charger, short_e000,
  short_charger, wrong_current, wrong_bytes, wrong_pack_voltage, wrong_setpoints,
}
use tufan_aks.Replay.Clean.{current, CleanE000, CleanCharger}

-- P holds and nothing is counted from a to b, or it does not and something is.
pub data Verdict (P : Type 0) (a b : ℕ) : Type 0 where
  passed : P → b ≡ a → Verdict P a b
  found : ¬ P → a < b → Verdict P a b

module _ {P Q : Type 0} {a b : ℕ} where
  pub Verdict-both : {c : ℕ} → Verdict P a b → Verdict Q b c → Verdict (P × Q) a c
  Verdict-both (passed p e) (passed q d) = passed (p, q) (omega arith)
  Verdict-both (passed p e) (found q d) = found (λ h. q (h.1)) (omega arith)
  Verdict-both (found p e) (passed q d) = found (λ h. p (h.0)) (omega arith)
  Verdict-both (found p e) (found q d) = found (λ h. p (h.0)) (omega arith)

  pub Verdict-iff : (P ↔ Q) → Verdict P a b → Verdict Q a b
  Verdict-iff h (passed p e) = passed (h.0 p) e
  Verdict-iff h (found p e) = found (λ q. p (h.1 q)) e

add_violation-count :
    (n : ℕ) (v : Fault) (st : Stats)
    → (add_violation n v st).violation_count ≡ st.violation_count + 1
unfolding add_violation
add_violation-count n v st = refl

module _ (st : Stats) where
  Verdict-check :
      (P : Type 0) (b : Bool) (n : ℕ) (v : Fault)
      → ((b ≡ true) ↔ P)
      → Verdict P st.violation_count (check b n v st).violation_count
  Verdict-check P true n v h = passed (h.0 refl) refl
  Verdict-check P false n v h =
      found (λ p. absurd_test (h.1 p)) (omega (arith, add_violation-count n v st))
    where
      absurd_test : ¬ (false ≡ true)
      absurd_test e = ground arith

  pub Verdict-found :
      (P : Type 0) (n : ℕ) (v : Fault)
      → ¬ P
      → Verdict P st.violation_count (add_violation n v st).violation_count
  Verdict-found P n v h = found h (omega (arith, add_violation-count n v st))

eqb_ℤ_iff : (a b : ℤ) → (eqb_ℤ a b ≡ true) ↔ (a ≡ b)
eqb_ℤ_iff (pos a) (pos b) = (λ h. ground arith, λ h. ground arith)
eqb_ℤ_iff (pos a) (negsuc b) = (λ h. ground arith, λ h. ground arith)
eqb_ℤ_iff (negsuc a) (pos b) = (λ h. ground arith, λ h. ground arith)
eqb_ℤ_iff (negsuc a) (negsuc b) = (λ h. ground arith, λ h. ground arith)

idle_current_iff :
    (z : ℤ)
    → ((eqb_ℤ z (neg_ℕ 10) || eqb_ℤ z (neg_ℕ 20)) ≡ true) ↔ ((z ≡ neg_ℕ 10) ⊎ (z ≡ neg_ℕ 20))
idle_current_iff (pos a) = (λ h. ground arith, λ h. ground arith)
idle_current_iff (negsuc a) = (λ h. ground arith, λ h. ground arith)

bytes_iff : (a b : ℕ) → ((a == 0x03 && b == 0x16) ≡ true) ↔ ((a ≡ 0x03) × (b ≡ 0x16))
bytes_iff a b = (λ h. ground arith, λ h. ground arith)

setpoints_iff : (a b : ℕ) → ((a == 880 && b == 1000) ≡ true) ↔ ((a ≡ 880) × (b ≡ 1000))
setpoints_iff a b = (λ h. ground arith, λ h. ground arith)

module _ (f : Frame) (st : Stats) where
  e000_short :
      (asserts : Bool)
      → ltb f.msg.data_length_code 8 ≡ true
      → process_e000 f asserts st ≡ add_violation f.line_no short_e000 st
  unfolding process_e000 parse_lb_bms_e000
  e000_short asserts e = rw (e, process_e000) refl

  e000_generic : ltb f.msg.data_length_code 8 ≡ false → process_e000 f false st ≡ st
  unfolding process_e000 parse_lb_bms_e000
  e000_generic e = rw (e, process_e000) refl

  e000_checked :
      ltb f.msg.data_length_code 8 ≡ false
      → process_e000 f true st
        ≡ check
            (eqb_ℤ (current f.msg) (neg_ℕ 10) || eqb_ℤ (current f.msg) (neg_ℕ 20))
            f.line_no
            (wrong_current (current f.msg))
            (check
              (byte f.msg 2 == 0x03 && byte f.msg 3 == 0x16)
              f.line_no
              wrong_bytes
              (check (word f.msg 2 == 790) f.line_no (wrong_pack_voltage (word f.msg 2)) st))
  unfolding process_e000 parse_lb_bms_e000 current
  e000_checked e = rw (e, process_e000) refl

  charger_short :
      (asserts : Bool)
      → ltb f.msg.data_length_code 4 ≡ true
      → process_charger f asserts st ≡ add_violation f.line_no short_charger st
  unfolding process_charger parse_charger_1806e5f4
  charger_short asserts e = rw (e, process_charger) refl

  charger_generic : ltb f.msg.data_length_code 4 ≡ false → process_charger f false st ≡ st
  unfolding process_charger parse_charger_1806e5f4
  charger_generic e = rw (e, process_charger) refl

  charger_checked :
      ltb f.msg.data_length_code 4 ≡ false
      → process_charger f true st
        ≡ check
            (word f.msg 0 == 880 && word f.msg 2 == 1000)
            f.line_no
            (wrong_setpoints (word f.msg 0) (word f.msg 2))
            st
  unfolding process_charger parse_charger_1806e5f4
  charger_checked e = rw (e, process_charger) refl

-- The pack voltage adds nothing to the two bytes it is made of.
checked_iff :
    (m : CanFrame) (C : Type 0)
    → 8 ≤ m.data_length_code
    → (((word m 2 ≡ 790) × ((byte m 2 ≡ 0x03) × (byte m 3 ≡ 0x16))) × C)
      ↔ ((8 ≤ m.data_length_code) × ((true ≡ false) ⊎ ((byte m 2 ≡ 0x03) × (byte m 3 ≡ 0x16) × C)))
checked_iff m C full = (λ h. (full, inr (h.0.1.0, h.0.1.1, h.1)), λ h. by_checks (h.1))
  where
    by_checks :
        ((true ≡ false) ⊎ ((byte m 2 ≡ 0x03) × (byte m 3 ≡ 0x16) × C))
        → ((word m 2 ≡ 790) × ((byte m 2 ≡ 0x03) × (byte m 3 ≡ 0x16))) × C
    by_checks (inl e) = absurd (let no : ¬ (true ≡ false) = λ t. ground arith in no e)
    by_checks (inr (a, b, c)) = ((omega (arith, a, b), (a, b)), c)

e000_full-Verdict :
    (f : Frame) (asserts : Bool) (st : Stats)
    → ltb f.msg.data_length_code 8 ≡ false
    → Verdict
        (CleanE000 asserts f.msg)
        st.violation_count
        (process_e000 f asserts st).violation_count
unfolding CleanE000
e000_full-Verdict f false st e = passed (ground arith, inl refl) (rw (e000_generic f st e) refl)
e000_full-Verdict f true st e = rw (e000_checked f st e) (
    Verdict-iff (checked_iff f.msg _ (ground arith)) (
      Verdict-both
        (Verdict-both (Verdict-check st _ _ _ _ (==_iff (word f.msg 2) 790))
          (Verdict-check _ _ _ _ _ (bytes_iff (byte f.msg 2) (byte f.msg 3))))
        (Verdict-check _ _ _ _ _ (idle_current_iff (current f.msg)))))

pub e000-Verdict :
    (f : Frame) (asserts : Bool) (st : Stats)
    → Verdict
        (CleanE000 asserts f.msg)
        st.violation_count
        (process_e000 f asserts st).violation_count
unfolding CleanE000
e000-Verdict f asserts st = elim (Bool-cases (ltb f.msg.data_length_code 8)) [
  | inl e ↦
      rw (e000_short f st asserts e)
        (Verdict-found st _ f.line_no short_e000 (λ h. let full = h.0 in ground arith))
  | inr e ↦ e000_full-Verdict f asserts st e
]

setpoints_checked_iff :
    (m : CanFrame) (C : Type 0)
    → 4 ≤ m.data_length_code
    → C ↔ ((4 ≤ m.data_length_code) × ((true ≡ false) ⊎ C))
setpoints_checked_iff m C full = (λ c. (full, inr c), λ h. by_checks (h.1))
  where
    by_checks : ((true ≡ false) ⊎ C) → C
    by_checks (inl e) = absurd (let no : ¬ (true ≡ false) = λ t. ground arith in no e)
    by_checks (inr c) = c

charger_full-Verdict :
    (f : Frame) (asserts : Bool) (st : Stats)
    → ltb f.msg.data_length_code 4 ≡ false
    → Verdict
        (CleanCharger asserts f.msg)
        st.violation_count
        (process_charger f asserts st).violation_count
unfolding CleanCharger
charger_full-Verdict f false st e =
    passed (ground arith, inl refl) (rw (charger_generic f st e) refl)
charger_full-Verdict f true st e = rw (charger_checked f st e) (
    Verdict-iff (setpoints_checked_iff f.msg _ (ground arith))
      (Verdict-check st _ _ _ _ (setpoints_iff (word f.msg 0) (word f.msg 2))))

pub charger-Verdict :
    (f : Frame) (asserts : Bool) (st : Stats)
    → Verdict
        (CleanCharger asserts f.msg)
        st.violation_count
        (process_charger f asserts st).violation_count
unfolding CleanCharger
charger-Verdict f asserts st = elim (Bool-cases (ltb f.msg.data_length_code 4)) [
  | inl e ↦
      rw (charger_short f st asserts e)
        (Verdict-found st _ f.line_no short_charger (λ h. let full = h.0 in ground arith))
  | inr e ↦ charger_full-Verdict f asserts st e
]
