-- ===== src/Diagnostic.antt =====
-- ESP_AKS/src/e22_diagnostic.cpp, a program for the bench that is built in place of the tasks: it reads the registers
-- of the radio module, reports them, and tries a transmission. Pins, UART and FreeRTOS are a parameter; of what is
-- printed, the lines of the registers, the decoded settings and the verdict are kept. The loop that follows only waits.
pub mod Settings
pub mod Wait
pub mod Session
mod Tests
use tufan_aks.Base.{
  ℕ, zero, suc, ◌+◌, ◌-◌, ◌/◌, ◌%◌, ◌==◌, ltb, leb, Bool, true, false, ◌&&◌, if◌then◌else◌, List,
  [], ◌∷◌, ◌++◌, Option, none, some, ◌>>=◌, get_or,
}
use tufan_aks.Base.Int.{ℤ, pos, ltb_ℤ, leb_ℤ}
use tufan_aks.Base.Words.{sub32}
use tufan_aks.Base.Decimal.{codes}
use tufan_aks.Base.Hex.{print_hex}
use tufan_aks.E22.{RegValues, contract_regs, is_error_response, parse_reg_response, regs_equal}
use tufan_aks.Diagnostic.Settings.{settings_lines}
use tufan_aks.Lora.{UartRead, seen, read_command}

-- The answers are true for ESP_OK; of the three calls that set the UART up, they are ignored.
pub record DiagPort (S : Type 0) : Type 0 where
  pub config_mode_pins : S → Bool × S
  pub config_aux_pin : S → Bool × S
  pub set_level : ℕ → ℕ → S → S  -- pin, level
  pub aux_level : S → ℕ × S
  pub param_config : S → S
  pub set_pin : S → S
  pub driver_install : S → S
  pub driver_delete : S → S
  pub uart_flush : S → S
  pub uart_write : List ℕ → S → S
  pub uart_read : ℕ → ℕ → S → UartRead × S  -- length, timeout in ticks
  pub tick_count : S → ℕ  -- uint32
  pub delay : ℕ → S → S  -- ticks

abbrev pub m0_pin : ℕ
m0_pin = 25

abbrev pub m1_pin : ℕ
m1_pin = 26

abbrev pub diag_aux_wait_ms : ℕ
diag_aux_wait_ms = 500

abbrev pub diag_rx_wait_ms : ℕ
diag_rx_wait_ms = 500

-- "E22_DIAG_PING\r\n"
abbrev pub ping_message : List ℕ
ping_message = codes "E22_DIAG_PING" ++ (13 ∷ 10 ∷ [])

pub register_line : ℕ → ℕ → List ℕ
register_line address value =
    codes "E22REG,0x" ++ (print_hex address ++ (codes ",0x" ++ (print_hex value ++ (13 ∷ 10 ∷ []))))

-- The loop over the register block, from `address` on.
pub register_lines : ℕ → ℕ → List ℕ → List (List ℕ)
register_lines zero address resp = []
register_lines (suc n) address resp =
    register_line address (get_or resp (3 + address) 0) ∷ register_lines n (address + 1) resp

pub dump_lines : UartRead → List (List ℕ)
dump_lines r = if leb_ℤ (pos 12) r.count then register_lines 9 0 r.buffer else []

-- The module refused the command, its answer is incomplete, or its registers and whether they are the contract's.
pub data Verdict : Type 0 where
  rejected : Verdict
  incomplete : ℤ → Verdict
  registers : RegValues → Bool → Verdict

pub judge : UartRead → Verdict
judge r =
    if ltb_ℤ (pos 0) r.count && is_error_response (seen r)
    then rejected
    else elim (parse_reg_response (seen r)) [
      | none ↦ incomplete r.count
      | some regs ↦ registers regs (regs_equal regs contract_regs)
    ]

pub settings_of : Verdict → List (List ℕ)
settings_of rejected = []
settings_of (incomplete n) = []
settings_of (registers regs same) = settings_lines regs

pub record Report : Type 0 where
  pub answer : UartRead
  pub dump : List (List ℕ)
  pub verdict : Verdict
  pub settings : List (List ℕ)
  pub echo : UartRead

-- What is reported of the answer to the read command and of the answer to the message.
abbrev pub report_of : UartRead → UartRead → Report
report_of answer echo = record {
  answer = answer;
  dump = dump_lines answer;
  verdict = judge answer;
  settings = settings_of (judge answer);
  echo = echo;
}

module _ {S : Type 0} (port : DiagPort S) (ms_to_ticks : ℕ → ℕ) where
  -- The loop that waits for AUX, with the number of turns left; `none` if they run out.
  pub wait_from : ℕ → ℕ → ℕ → S → Option (Bool × S)
  wait_from zero t0 timeout s = none
  wait_from (suc turns) t0 timeout s = elim (ltb (sub32 (port.tick_count s) t0) timeout) [
    | false ↦ some (false, s)
    | true ↦ elim ((port.aux_level s).0 == 1) [
      | true ↦ some (true, (port.aux_level s).1)
      | false ↦ wait_from turns t0 timeout (port.delay (ms_to_ticks 10) (port.aux_level s).1)
    ]
  ]

  pub wait_aux : S → Option (Bool × S)
  wait_aux s =
      wait_from (ms_to_ticks diag_aux_wait_ms + 1) (port.tick_count s)
        (ms_to_ticks diag_aux_wait_ms) s

  pub set_mode : ℕ → ℕ → S → S
  set_mode m0 m1 s = port.set_level m1_pin m1 (port.set_level m0_pin m0 s)

  -- The configuration mode and the UART.
  pub enter_config : S → S
  enter_config s = port.driver_install (port.set_pin (port.param_config (set_mode 0 1 s)))

  pub query : S → UartRead × S
  query s =
      port.uart_read 12 (ms_to_ticks diag_rx_wait_ms)
        (port.uart_write read_command (port.uart_flush (port.delay (ms_to_ticks 50) s)))

  pub smoke_test : S → UartRead × S
  smoke_test s =
      port.uart_read 31 (ms_to_ticks diag_rx_wait_ms)
        (port.uart_write ping_message (port.uart_flush s))

  pub diagnose : S → Option (Report × S)
  diagnose s = do
    ready ← wait_aux (enter_config s)
    let asked = query (ready.1)
    normal ← wait_aux (set_mode 0 0 (port.delay (ms_to_ticks 50) (asked.1)))
    let echoed = smoke_test (normal.1)
    some (report_of (asked.0) (echoed.0), port.driver_delete (echoed.1))

  -- `app_main` of the diagnostic; `none` also where ESP_ERROR_CHECK stops the program.
  pub diag_main : S → Option (Report × S)
  diag_main s =
      let modes = port.config_mode_pins s in
      let aux = port.config_aux_pin (modes.1) in if modes.0 && aux.0 then diagnose (aux.1) else none
