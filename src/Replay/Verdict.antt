-- ===== src/Replay/Verdict.antt =====
-- The verdict of tools/can_replay/can_replay.cpp against a description of the logs that pass.
use tufan_aks.Base.{
  ℕ, ◌+◌, ◌==◌, ◌≡◌, ◌≢◌, refl, ◌↔◌, ◌⊎◌, inl, inr, arith, Bool, true, false, if◌then◌else◌, List,
  [], ◌∷◌, Bool-cases, subst, sym, ◌∙◌,
}
use mathlib.Core.Sum.{inl-ne-inr, inr-injective}
use tufan_aks.Replay.{
  Frame, Stats, LineError, new_stats, add_violation, process_e000, process_charger,
  process_ext_frame, process_frame, process_line, parse_line, is_skipped, is_only_parsed,
  replay_from, exit_code, count_frame, mark_unknown, bad_line,
}
use tufan_aks.Replay.Text.{trim}
use tufan_aks.Replay.Clean.{CleanE000, CleanCharger, CleanFrame, CleanLine, CleanLog}
use tufan_aks.Replay.Lines.{parse_line_iff}
use tufan_aks.Replay.Checks.{
  Verdict, passed, found, Verdict-both, Verdict-iff, Verdict-found, e000-Verdict, charger-Verdict,
}

module _ (asserts : Bool) (f : Frame) (st : Stats) where
  ext_e000 : f.id ≡ 0xE000 → process_ext_frame f asserts st ≡ process_e000 f asserts st
  unfolding process_ext_frame
  ext_e000 e = rw (e, process_ext_frame) refl

  ext_charger : f.id ≡ 0x1806E5F4 → process_ext_frame f asserts st ≡ process_charger f asserts st
  unfolding process_ext_frame
  ext_charger e = rw (e, process_ext_frame) refl

  ext_other :
      (f.id == 0xE000) ≡ false
      → (f.id == 0x1806E5F4) ≡ false
      → (process_ext_frame f asserts st).violation_count ≡ st.violation_count
  unfolding process_ext_frame
  ext_other e d = rw (e, d, process_ext_frame) (by_id (is_only_parsed f.id))
    where
      by_id :
          (b : Bool) → (if b then st else mark_unknown f st).violation_count ≡ st.violation_count
      by_id true = refl
      by_id false = refl

id-cases :
    (n : ℕ)
    → (n ≡ 0xE000) ⊎ ((n ≡ 0x1806E5F4) ⊎ (((n == 0xE000) ≡ false) × ((n == 0x1806E5F4) ≡ false)))
id-cases n = ground arith

ext-Verdict :
    (asserts : Bool) (f : Frame) (st : Stats)
    → f.is_ext ≡ true
    → Verdict
        (CleanFrame asserts f)
        st.violation_count
        (process_ext_frame f asserts st).violation_count
unfolding CleanFrame
ext-Verdict asserts f st ext = elim (id-cases f.id) [
  | inl e ↦
      rw (ext_e000 asserts f st e)
        (Verdict-iff (λ h. inr (inl (e, h)), by_e000 e) (e000-Verdict f asserts st))
  | inr (inl e) ↦
      rw (ext_charger asserts f st e)
        (Verdict-iff (λ h. inr (inr (inl (e, h))), by_charger e) (charger-Verdict f asserts st))
  | inr (inr (e, d)) ↦
      passed (inr (inr (inr (λ h. ground arith, λ h. ground arith)))) (ext_other asserts f st e d)
]
  where
    by_e000 :
        f.id ≡ 0xE000
        → (f.is_ext ≡ false)
          ⊎ (((f.id ≡ 0xE000) × CleanE000 asserts f.msg)
              ⊎ (((f.id ≡ 0x1806E5F4) × CleanCharger asserts f.msg)
                  ⊎ ((f.id ≢ 0xE000) × (f.id ≢ 0x1806E5F4))))
        → CleanE000 asserts f.msg
    by_e000 e (inl h) = absurd (ground arith)
    by_e000 e (inr (inl h)) = h.1
    by_e000 e (inr (inr (inl h))) = absurd (let d = h.0 in omega arith)
    by_e000 e (inr (inr (inr h))) = absurd (h.0 e)

    by_charger :
        f.id ≡ 0x1806E5F4
        → (f.is_ext ≡ false)
          ⊎ (((f.id ≡ 0xE000) × CleanE000 asserts f.msg)
              ⊎ (((f.id ≡ 0x1806E5F4) × CleanCharger asserts f.msg)
                  ⊎ ((f.id ≢ 0xE000) × (f.id ≢ 0x1806E5F4))))
        → CleanCharger asserts f.msg
    by_charger e (inl h) = absurd (ground arith)
    by_charger e (inr (inl h)) = absurd (let d = h.0 in omega arith)
    by_charger e (inr (inr (inl h))) = h.1
    by_charger e (inr (inr (inr h))) = absurd (h.1 e)

count_frame-count :
    (f : Frame) (st : Stats) → (count_frame f st).violation_count ≡ st.violation_count
unfolding count_frame
count_frame-count f st = refl

count_either :
    (b : Bool) (x y : Stats) (n : ℕ)
    → x.violation_count ≡ n
    → y.violation_count ≡ n
    → (if b then x else y).violation_count ≡ n
count_either true x y n h k = h
count_either false x y n h k = k

standard-count :
    (asserts : Bool) (f : Frame) (st : Stats)
    → f.is_ext ≡ false
    → (process_frame asserts f st).violation_count ≡ st.violation_count
unfolding process_frame count_frame
standard-count asserts f st e =
    rw (e, process_frame) (count_either (f.id == 0) _ _ st.violation_count refl refl)

extended-process :
    (asserts : Bool) (f : Frame) (st : Stats)
    → f.is_ext ≡ true
    → process_frame asserts f st ≡ process_ext_frame f asserts (count_frame f st)
unfolding process_frame
extended-process asserts f st e = rw (e, process_frame) refl

frame-Verdict :
    (asserts : Bool) (f : Frame) (st : Stats)
    → Verdict (CleanFrame asserts f) st.violation_count (process_frame asserts f st).violation_count
unfolding CleanFrame
frame-Verdict asserts f st = elim (Bool-cases f.is_ext) [
  | inl e ↦ rw (extended-process asserts f st e) (
      subst
        (λ n.
          Verdict (CleanFrame asserts f) n
            (process_ext_frame f asserts (count_frame f st)).violation_count)
        (count_frame-count f st) (ext-Verdict asserts f (count_frame f st) e))
  | inr e ↦ passed (inl e) (standard-count asserts f st e)
]

module _ (asserts : Bool) (n : ℕ) (line : List ℕ) (st : Stats) where
  line_skipped : is_skipped (trim line) ≡ true → process_line asserts n line st ≡ st
  unfolding process_line
  line_skipped e = rw (e, process_line) refl

  line_bad :
      (err : LineError)
      → is_skipped (trim line) ≡ false
      → parse_line (trim line) n ≡ inl err
      → process_line asserts n line st ≡ add_violation n (bad_line err) st
  unfolding process_line
  line_bad err e d = rw (e, d, process_line) refl

  line_frame :
      (f : Frame)
      → is_skipped (trim line) ≡ false
      → parse_line (trim line) n ≡ inr f
      → process_line asserts n line st ≡ process_frame asserts f st
  unfolding process_line
  line_frame f e d = rw (e, d, process_line) refl

-- A line that the parser refuses has no frame, and one that it accepts has only the frame it gives.
not_clean_bad :
    (asserts : Bool) (n : ℕ) (line : List ℕ) (err : LineError)
    → is_skipped (trim line) ≡ false
    → parse_line (trim line) n ≡ inl err
    → ¬ CleanLine asserts n line
unfolding CleanLine
not_clean_bad asserts n line err e d (inl h) = ground arith
not_clean_bad asserts n line err e d (inr (f, h, c)) =
    inl-ne-inr (sym d ∙ (parse_line_iff (trim line) n f).1 h)

clean_is_frame :
    (asserts : Bool) (n : ℕ) (line : List ℕ) (f : Frame)
    → is_skipped (trim line) ≡ false
    → parse_line (trim line) n ≡ inr f
    → CleanLine asserts n line
    → CleanFrame asserts f
unfolding CleanLine
clean_is_frame asserts n line f e d (inl h) = absurd (ground arith)
clean_is_frame asserts n line f e d (inr (g, h, c)) =
    subst (CleanFrame asserts) (inr-injective g f (sym ((parse_line_iff (trim line) n g).1 h) ∙ d))
      c

line-Verdict :
    (asserts : Bool) (n : ℕ) (line : List ℕ) (st : Stats)
    → Verdict
        (CleanLine asserts n line)
        st.violation_count
        (process_line asserts n line st).violation_count
unfolding CleanLine
line-Verdict asserts n line st = elim (Bool-cases (is_skipped (trim line))) [
  | inl e ↦ rw (line_skipped asserts n line st e) (passed (inl e) refl)
  | inr e ↦ by_parse (parse_line (trim line) n) refl e
]
  where
    by_parse :
        (r : LineError ⊎ Frame)
        → parse_line (trim line) n ≡ r
        → is_skipped (trim line) ≡ false
        → Verdict
            (CleanLine asserts n line)
            st.violation_count
            (process_line asserts n line st).violation_count
    by_parse (inl err) d e =
        rw (line_bad asserts n line st err e d)
          (Verdict-found st _ n (bad_line err) (not_clean_bad asserts n line err e d))
    by_parse (inr f) d e = rw (line_frame asserts n line st f e d) (
        Verdict-iff
          (
            λ h. inr (f, (parse_line_iff (trim line) n f).0 d, h),
            clean_is_frame asserts n line f e d,
          )
          (frame-Verdict asserts f st))

log-Verdict :
    (asserts : Bool) (n : ℕ) (lines : List (List ℕ)) (st : Stats)
    → Verdict
        (CleanLog asserts n lines)
        st.violation_count
        (replay_from asserts n lines st).violation_count
unfolding CleanLog replay_from
log-Verdict asserts n [] st = passed tt refl
log-Verdict asserts n (line ∷ lines) st =
    Verdict-both (line-Verdict asserts (n + 1) line st)
      (log-Verdict asserts (n + 1) lines (process_line asserts (n + 1) line st))

Verdict-exit : {P : Type 0} (st : Stats) → Verdict P 0 st.violation_count → (exit_code st ≡ 0) ↔ P
Verdict-exit st (passed p e) = (λ h. p, λ h. ground arith)
Verdict-exit st (found p e) = (λ h. absurd (ground arith), λ h. absurd (p h))

-- The exit code of a replay is 0 exactly if every line of the log is blank, a comment, or a line of
-- exactly four fields (EXT or STD, an identifier, a length from 0 to 8, and as many bytes as the length says)
-- whose frame no check refuses: an extended E000 or charger frame has its eight or four bytes and, with
-- the checks of the session on, the expected voltage and one of the two idle currents, or the expected
-- set points. The identifier, the length and the bytes are what strtoul and strtol read, so that a text
-- that is no number, such as ZZ, is let pass as 0.
pub replay-passes :
    (asserts : Bool) (lines : List (List ℕ))
    → (exit_code (replay_from asserts 0 lines new_stats) ≡ 0) ↔ CleanLog asserts 0 lines
replay-passes asserts lines =
    Verdict-exit (replay_from asserts 0 lines new_stats) (log-Verdict asserts 0 lines new_stats)
