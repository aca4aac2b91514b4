-- ===== src/Lora.antt =====
-- The set-up of the radio module at boot: `LoraLink::configureE22` of ESP_AKS/lib/LoraLink/LoraLink.cpp
-- over the interface ILoraHal of LoraLink.h.
--
-- The HAL is a parameter, with the hardware behind it as a state. A buffer that is written is the argument; a buffer
-- that is read is part of the result. What only logs is left out.
pub mod Init
pub mod Session
pub mod Wait
mod Tests
use tufan_aks.Base.{
  ℕ, zero, suc, ◌+◌, ◌%◌, ◌≡◌, ◌≤◌, ◌<◌, Bool, true, false, not, ◌&&◌, if◌then◌else◌, ltb, List, [],
  Option, none, some, take, ◌>>=◌,
}
use tufan_aks.Base.Int.{ℤ, pos, negsuc, ltb_ℤ}
use tufan_aks.Base.Words.{sub64, u64_mod}
use tufan_aks.E22.{
  contract_regs, build_read_all_command, build_write_command, build_write_crypt_temp_command,
  is_error_response, parse_reg_response, regs_equal,
}

-- The answer of `uartRead`, and the buffer after it.
pub record UartRead : Type 0 where
  pub count : ℤ
  pub buffer : List ℕ

pub record LoraHal (S : Type 0) : Type 0 where
  pub set_mode_pins : ℕ → ℕ → S → S
  pub is_aux_ready : S → Bool × S
  pub uart_flush : S → S
  pub uart_write : List ℕ → S → S
  pub uart_read : ℕ → ℕ → S → UartRead × S  -- length, timeout
  pub delay_ms : ℕ → S → S
  pub now_ms : S → ℕ  -- uint64

abbrev pub mode_timeout_ms : ℕ
mode_timeout_ms = 500

abbrev pub cfg_timeout_ms : ℕ
cfg_timeout_ms = 2000

abbrev pub read_timeout_ms : ℕ
read_timeout_ms = 500

-- The bytes that a callee sees that is given the buffer and `(size_t)count`: a negative count is larger
-- than any buffer.
abbrev pub seen : UartRead → List ℕ
seen r = elim r.count [ pos n ↦ take n r.buffer | negsuc n ↦ r.buffer ]

abbrev or_empty : Option (List ℕ) → List ℕ
or_empty none = []
or_empty (some c) = c

abbrev pub read_command : List ℕ
read_command = or_empty (build_read_all_command 3)

abbrev pub write_command : List ℕ
write_command = or_empty (build_write_command 12 contract_regs)

abbrev pub crypt_command : List ℕ
crypt_command = or_empty (build_write_crypt_temp_command 5)

-- `needsWrite`, as the answer to the read command decides it.
unfoldable pub needs_write : UartRead → Bool
needs_write r =
    if ltb_ℤ (pos 0) r.count && is_error_response (seen r)
    then true
    else elim (parse_reg_response (seen r)) [
      | none ↦ true
      | some current ↦ not (regs_equal current contract_regs)
    ]

module _ {S : Type 0} (hal : LoraHal S) where
  -- The loop of `waitAuxReady` with the number of turns left; `none` if they run out.
  unfoldable pub wait_aux_from : ℕ → ℕ → ℕ → S → Option (Bool × S)
  wait_aux_from zero t0 timeout s = none
  wait_aux_from (suc turns) t0 timeout s = elim (ltb (sub64 (hal.now_ms s) t0) timeout) [
    | false ↦ some (false, s)
    | true ↦ elim (hal.is_aux_ready s).0 [
      | true ↦ some (true, (hal.is_aux_ready s).1)
      | false ↦ wait_aux_from turns t0 timeout (hal.delay_ms 10 (hal.is_aux_ready s).1)
    ]
  ]

  unfoldable pub wait_aux_ready : ℕ → S → Option (Bool × S)
  wait_aux_ready timeout s = wait_aux_from (timeout + 1) (hal.now_ms s) timeout s

  -- A command on an empty receive buffer.
  unfoldable pub send_command : List ℕ → S → S
  send_command command s = hal.uart_write command (hal.uart_flush s)

  -- The CRYPT registers are written to the module's RAM; the answer is only logged.
  unfoldable pub write_crypt : S → S
  write_crypt s = (hal.uart_read 5 read_timeout_ms (send_command crypt_command s)).1

  -- The permanent write; its confirmation is read if the module finishes in time, and only logged.
  unfoldable pub write_contract : S → Option S
  write_contract s = do
    done ← wait_aux_ready cfg_timeout_ms (hal.delay_ms 50 (send_command write_command s))
    some (if done.0 then (hal.uart_read 12 read_timeout_ms (done.1)).1 else done.1)

  unfoldable pub read_and_repair : S → Option S
  read_and_repair s =
      let r = hal.uart_read 12 read_timeout_ms (send_command read_command s) in
      elim (needs_write (r.0)) [ true ↦ write_contract (r.1) | false ↦ some (write_crypt (r.1)) ]

  unfoldable pub configure_e22 : S → Option S
  configure_e22 s = do
    ready ← wait_aux_ready mode_timeout_ms (hal.set_mode_pins 0 1 s)
    after ← elim ready.0 [ true ↦ read_and_repair (ready.1) | false ↦ some (ready.1) ]
    normal ← wait_aux_ready mode_timeout_ms (hal.set_mode_pins 0 0 after)
    some (normal.1)

  -- What a wait relies on: the clock is read as milliseconds modulo 2^64, polling does not
  -- set it back, a delay moves it on, and no call takes an age.
  pub record IsClocked : Type 0 where
    pub clock : S → ℕ
    pub longest : ℕ
    pub longest_short : longest < 4611686018427387904  -- 2^62
    pub now_reads : (s : S) → hal.now_ms s ≡ clock s % u64_mod
    pub aux_later : (s : S) → clock s ≤ clock (hal.is_aux_ready s).1
    pub aux_soon : (s : S) → clock (hal.is_aux_ready s).1 ≤ clock s + longest
    pub delay_later : (s : S) → clock s < clock (hal.delay_ms 10 s)
    pub delay_soon : (s : S) → clock (hal.delay_ms 10 s) ≤ clock s + longest
