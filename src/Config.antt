-- ===== src/Config.antt =====
-- The constants of ESP_AKS/include/SystemConfig.h, and those of the modules' own headers that
-- several parts compare with. The values are the repository's.
use tufan_aks.Base.{ℕ, Bool, false}

-- Safety thresholds of the pack.
abbrev pub bms_warn_min_pack_voltage_deci_v : ℕ
bms_warn_min_pack_voltage_deci_v = 720

abbrev pub bms_critical_min_pack_voltage_deci_v : ℕ
bms_critical_min_pack_voltage_deci_v = 600

abbrev pub bms_warn_max_pack_voltage_deci_v : ℕ
bms_warn_max_pack_voltage_deci_v = 852

abbrev pub bms_critical_max_pack_voltage_deci_v : ℕ
bms_critical_max_pack_voltage_deci_v = 876

abbrev pub bms_warn_max_temp_c : ℕ
bms_warn_max_temp_c = 55

abbrev pub bms_critical_max_temp_c : ℕ
bms_critical_max_temp_c = 70

abbrev pub bms_warn_max_charge_current_centi_a : ℕ
bms_warn_max_charge_current_centi_a = 1100

abbrev pub bms_critical_max_charge_current_centi_a : ℕ
bms_critical_max_charge_current_centi_a = 1300

abbrev pub bms_warn_max_discharge_current_centi_a : ℕ
bms_warn_max_discharge_current_centi_a = 900

abbrev pub bms_critical_max_discharge_current_centi_a : ℕ
bms_critical_max_discharge_current_centi_a = 1500

-- Cell thresholds of BmsAlgo.h.
abbrev pub bms_cell_undervolt_crit_mv : ℕ
bms_cell_undervolt_crit_mv = 2500

abbrev pub bms_cell_overvolt_crit_mv : ℕ
bms_cell_overvolt_crit_mv = 3650

abbrev pub bms_cell_undervolt_warn_mv : ℕ
bms_cell_undervolt_warn_mv = 2800

abbrev pub bms_cell_overvolt_warn_mv : ℕ
bms_cell_overvolt_warn_mv = 3550

-- The state machine.
abbrev pub motor_driver_present : Bool
motor_driver_present = false

abbrev pub motor_error_debounce_frames : ℕ
motor_error_debounce_frames = 3

abbrev pub task_period_ms : ℕ
task_period_ms = 20

abbrev pub vcu_contactor_open_delay_ms : ℕ
vcu_contactor_open_delay_ms = 20

abbrev pub relay_verify_period_ms : ℕ
relay_verify_period_ms = 100

abbrev pub relay_total_channels : ℕ
relay_total_channels = 10

-- Timeouts, in milliseconds; the tick of the system's clock is a parameter where ticks are used.
abbrev pub can_motor_status_timeout_ms : ℕ
can_motor_status_timeout_ms = 1500

abbrev pub can_bms_status_timeout_ms : ℕ
can_bms_status_timeout_ms = 500

abbrev pub can_cell_voltage_timeout_ms : ℕ
can_cell_voltage_timeout_ms = 500

abbrev pub can_charger_timeout_ms : ℕ
can_charger_timeout_ms = 2000

abbrev pub can_rx_drain_max : ℕ
can_rx_drain_max = 32
