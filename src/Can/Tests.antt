-- ===== src/Can/Tests.antt =====
-- The manager's theorems on concrete frames, with a tick of one millisecond.
use tufan_aks.Base.{
  ℕ, ◌+◌, ◌*◌, ◌/◌, ◌≡◌, refl, ◌≤◌, ◌<◌, ◌↔◌, ◌⊎◌, arith, Bool, true, false, ◌==◌, List, [], ◌∷◌,
  none, All, take, length, get_or,
}
use tufan_aks.Fixtures.{extended_frame}
use tufan_aks.Parse.{CanFrame, word}
use tufan_aks.Parse.Fields.{four_words}
use tufan_aks.Can.{
  CanManager, FreshnessResult, new_manager, motor_error_fault_confirmed, bms_evaluate_freshness,
}
use tufan_aks.Can.Begin.{TwaiDriver, begin}
use tufan_aks.Can.Begin.Driver.{Phase, absent, installed, running, IsTwai, IsClean, begin-IsClean}
use tufan_aks.Can.Debounce.{count_after, IsError, confirmed_iff}
use tufan_aks.Can.Freshness.{freshness_iff}
use tufan_aks.Can.Cells.{timed_out, received_from, set_over_timeout}
use tufan_aks.Can.Assembly.{received_groups, cells_assembled}
use tufan_aks.Can.Sample.{started, high_frames}
use tufan_aks.Can.Receive.{RxResult, received, process_rx_messages}
use tufan_aks.Can.Fits.{ManagerFits}
use tufan_aks.Can.Typed.{IsConsistent, process-IsTyped}

confirmed_iff_example :
    ((motor_error_fault_confirmed 4 (count_after 3 (2 ∷ 2 ∷ 0 ∷ [])) 3).0 ≡ true)
    ↔ ((3 ≤ length {A = ℕ} (4 ∷ 2 ∷ 2 ∷ 0 ∷ [])) × All IsError (take 3 (4 ∷ 2 ∷ 2 ∷ 0 ∷ [])))
confirmed_iff_example = confirmed_iff 3 4 (2 ∷ 2 ∷ 0 ∷ []) (omega arith) (omega arith)

-- E000 came 100 ticks ago, before the clock wrapped, and E001 600 ticks ago.
freshness_iff_example :
    ((FreshnessResult.data_valid (bms_evaluate_freshness true 4294967246 true 4294966746 50 500)
        ≡ true)
      ↔ (((true ≡ true) × (100 < 500)) × ((true ≡ true) × (600 < 500))))
    × ((FreshnessResult.timeout_active
            (bms_evaluate_freshness true 4294967246 true 4294966746 50 500)
          ≡ true)
        ↔ (((true ≡ true) × (500 ≤ 100)) ⊎ ((true ≡ true) × (500 ≤ 600))))
freshness_iff_example =
    freshness_iff true true 4294967246 100 4294966746 600 50 500 (omega arith) (omega arith)
      (omega arith) (omega arith) refl refl

abbrev cell_frames : ℕ → CanFrame
cell_frames i = extended_frame (0xE015 + i) (four_words 33500 33510 33490 (33505 + i))

cells_assembled_example :
    let t = received_groups 6 (λ i. i) cell_frames new_manager in
    (t.telemetry.cell_voltage_data_valid ≡ true)
    × (length t.telemetry.bms_cell_voltages ≡ 24)
    × (get_or t.telemetry.bms_cell_voltages (4 * 2 + 3) 0 ≡ word (cell_frames 2) (2 * 3) / 10)
cells_assembled_example =
    cells_assembled (λ i. i) cell_frames new_manager (λ i. omega arith) refl refl 2 3 (omega arith)
      (omega arith)

abbrev idle : CanManager
idle = record new_manager { mutex = true }

-- Two groups, a pause of 700 ticks in which the clock wraps, and the other four groups.
set_over_timeout_example :
    let p = timed_out (λ ms. ms) (received_groups 2 (λ i. 4294967290) cell_frames idle) 700 in
    let t = received_from (λ i. 4294967290) cell_frames 2 4 p in
    let c = timed_out (λ ms. ms) (received_groups 6 (λ i. 4294967290) cell_frames idle) 700 in
    ((p.telemetry.cell_voltage_timeout_active ≡ true)
      × (p.telemetry.cell_voltage_data_valid ≡ false)
      × (t.telemetry.cell_voltage_data_valid ≡ true)
      × (get_or t.telemetry.bms_cell_voltages (4 * 1 + 3) 0 ≡ word (cell_frames 1) (2 * 3) / 10))
    × ((c.telemetry.cell_voltage_data_valid ≡ false)
        × ((received_groups 5 (λ i. 900 + i) cell_frames c).telemetry.cell_voltage_data_valid
            ≡ false))
set_over_timeout_example =
    set_over_timeout (λ ms. ms) (λ i. 4294967290) (λ i. 900 + i) cell_frames cell_frames idle 700 1
      3 (λ i. omega arith) (λ i. omega arith) (λ i. omega arith) refl refl refl refl (omega arith)
      (omega arith) (omega arith) 1 3 5 (omega arith) (omega arith) (omega arith)

-- A driver on a bus of 250 kbit/s: the state is what the laws read.
abbrev install : ℕ → Phase → Bool × Phase
install b absent = (true, installed b)
install b (installed c) = (false, installed c)
install b (running c) = (false, running c)

abbrev start_up : Phase → Bool × Phase
start_up absent = (false, absent)
start_up (installed b) = (true, running b)
start_up (running b) = (false, running b)

abbrev hears : Phase → Bool × Phase
hears absent = (false, absent)
hears (installed b) = (false, installed b)
hears (running b) = (b == 250, running b)

abbrev halt : Phase → Phase
halt absent = absent
halt (installed b) = installed b
halt (running b) = installed b

abbrev remove : Phase → Phase
remove absent = absent
remove (installed b) = absent
remove (running b) = running b

abbrev twai : TwaiDriver Phase
twai = record {
  driver_install = install;
  start = start_up;
  receive = hears;
  stop = halt;
  driver_uninstall = remove;
}

install_failed : (b : ℕ) (s : Phase) → (install b s).0 ≡ false → (install b s).1 ≡ s
install_failed b absent h = absurd (ground (arith, h))
install_failed b (installed c) h = refl
install_failed b (running c) h = refl

start_failed : (s : Phase) → (start_up s).0 ≡ false → (start_up s).1 ≡ s
start_failed absent h = refl
start_failed (installed b) h = absurd (ground (arith, h))
start_failed (running b) h = refl

hears_keeps : (s : Phase) → (hears s).1 ≡ s
hears_keeps absent = refl
hears_keeps (installed b) = refl
hears_keeps (running b) = refl

abbrev twai-IsTwai : IsTwai twai
twai-IsTwai = record {
  phase = λ s. s;
  install_ok = λ b s e h. rw e refl;
  install_failed = install_failed;
  start_ok = λ b s e h. rw e refl;
  start_failed = start_failed;
  receive_keeps = hears_keeps;
  stop_stops = λ b s e. rw e refl;
  uninstall_removes = λ b s e. rw e refl;
}

begin-IsClean_example : IsClean twai twai-IsTwai (begin twai true new_manager absent)
begin-IsClean_example = begin-IsClean twai twai-IsTwai true new_manager absent refl refl

-- A frame of cells and one of a pack above its critical voltage.
abbrev mixed : List RxResult
mixed = received 4 (cell_frames 0) ∷ high_frames

started-Fits : ManagerFits started
started-Fits = ground arith

started-IsConsistent : IsConsistent started
started-IsConsistent = ground arith

process-IsTyped_example :
    let t = process_rx_messages (λ ms. ms) 4 6 none mixed started in ManagerFits t × IsConsistent t
process-IsTyped_example =
    process-IsTyped (λ ms. ms) 4 6 none mixed started (ground arith)
      (started-Fits, started-IsConsistent)
