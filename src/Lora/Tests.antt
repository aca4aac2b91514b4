-- ===== src/Lora/Tests.antt =====
-- The radio's set-up with a module that holds the contract's registers.
use tufan_aks.Base.{ℕ, ◌+◌, ◌%◌, leb, List, [], ◌∷◌, take}
use tufan_aks.Base.Int.{pos}
use tufan_aks.Base.Words.{u64_mod}
use tufan_aks.Lora.{LoraHal}
use tufan_aks.Lora.Session.{Session}

abbrev answer : List ℕ
answer = 0xC1 ∷ 0 ∷ 9 ∷ 0 ∷ 0 ∷ 0 ∷ 0x64 ∷ 0 ∷ 0x17 ∷ 0 ∷ 0 ∷ 0 ∷ []

-- The state is the clock; the module is ready after 30 milliseconds.
abbrev module_hal : LoraHal ℕ
module_hal = record {
  set_mode_pins = λ m0 m1 s. s;
  is_aux_ready = λ s. (leb 30 s, s);
  uart_flush = λ s. s;
  uart_write = λ bytes s. s + 1;
  uart_read = λ len timeout s. (record { count = pos len; buffer = take len answer }, s + 5);
  delay_ms = λ ms s. s + ms;
  now_ms = λ s. s % u64_mod;
}
