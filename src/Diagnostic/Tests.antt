-- ===== src/Diagnostic/Tests.antt =====
-- The diagnostic with a module that holds the contract's registers.
use tufan_aks.Base.{ℕ, ◌+◌, ◌%◌, ◌≡◌, refl, true, List, [], ◌∷◌, ◌++◌, take, if◌then◌else◌, leb}
use tufan_aks.Base.Int.{pos}
use tufan_aks.Base.Words.{u32_mod}
use tufan_aks.Base.Decimal.{codes}
use tufan_aks.Diagnostic.{DiagPort, register_line}
use tufan_aks.Diagnostic.Settings.{decode_reg0}

abbrev answer : List ℕ
answer = 0xC1 ∷ 0 ∷ 9 ∷ 0 ∷ 0 ∷ 0 ∷ 0x64 ∷ 0 ∷ 0x17 ∷ 0 ∷ 0 ∷ 0 ∷ []

abbrev ticks_of : ℕ → ℕ
ticks_of ms = ms

-- The state is the clock; the module is ready after 30 ticks.
abbrev module_port : DiagPort ℕ
module_port = record {
  config_mode_pins = λ s. (true, s);
  config_aux_pin = λ s. (true, s);
  set_level = λ pin level s. s;
  aux_level = λ s. (if leb 30 s then 1 else 0, s);
  param_config = λ s. s;
  set_pin = λ s. s;
  driver_install = λ s. s;
  driver_delete = λ s. s;
  uart_flush = λ s. s;
  uart_write = λ bytes s. s + 1;
  uart_read = λ len timeout s. (record { count = pos len; buffer = take len answer }, s + 5);
  tick_count = λ s. s % u32_mod;
  delay = λ ticks s. s + ticks;
}

reg0_decoded :
    decode_reg0 0x64 ≡ codes "  REG0  = 0x64  ->  UART: 9600 bps | parity: 8N1 | air rate: 9.6 kbps"
reg0_decoded = refl

channel_printed : register_line 5 0x17 ≡ codes "E22REG,0x05,0x17" ++ (13 ∷ 10 ∷ [])
unfolding register_line
channel_printed = refl
