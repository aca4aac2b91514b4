-- ===== src/Lora/Session.antt =====
-- What the set-up of the radio module does at boot, `configureE22` of ESP_AKS/lib/LoraLink/LoraLink.cpp, seen
-- as the sequence of its calls.
use tufan_aks.Base.{◌≡◌, ◌⊎◌, List, [], ◌∷◌, ◌++◌, Option, none, some}
use tufan_aks.E22.{parse_reg_response, contract_regs}
use tufan_aks.Lora.Wait.{Call, pins, flushed, written, answered, traced}
use tufan_aks.Lora.{
  LoraHal, UartRead, IsClocked, read_and_repair, seen, read_command, write_command, crypt_command,
  read_timeout_ms,
}

-- The module holds the contract's registers, by its answer to the read command.
abbrev pub Holds : UartRead → Type 0
Holds a = parse_reg_response (seen a) ≡ some contract_regs

-- The calls with the answer to a write, if it was read.
abbrev pub with_confirmation : Option UartRead → List Call → List Call
with_confirmation none log = log
with_confirmation (some b) log = log ++ (answered b ∷ [])

-- The calls of a whole set-up, by the answer a to the read command: the module did not get ready for
-- it, or it holds the contract's registers and gets the key in RAM, or it does not and is written for good.
abbrev pub Session : List Call → Type 0
Session log =
    (log ≡ pins 0 1 ∷ pins 0 0 ∷ [])
    ⊎ ((a : UartRead) × (b : UartRead) × Holds a
        × (log
            ≡ pins 0 1
              ∷ flushed
              ∷ written read_command
              ∷ answered a
              ∷ flushed
              ∷ written crypt_command
              ∷ answered b
              ∷ pins 0 0
              ∷ []))
    ⊎ ((a : UartRead) × (o : Option UartRead) × ¬ Holds a
        × (log
            ≡ with_confirmation o (
                pins 0 1
                ∷ flushed
                ∷ written read_command
                ∷ answered a
                ∷ flushed
                ∷ written write_command
                ∷ [])
              ++ (pins 0 0 ∷ [])))

module _ {S : Type 0} (hal : LoraHal S) (k : IsClocked hal) where
  asked : S → UartRead × S
  asked s = hal.uart_read 12 read_timeout_ms (hal.uart_write read_command (hal.uart_flush s))

  -- A set-up that got ready for the read command, up to the return to the normal mode.
  Repaired : S → Type 0
  Repaired s =
      (s' : S) × (log : List Call) × (read_and_repair (traced hal) (s, pins 0 1 ∷ [])
        ≡ some (s', log))
      × Session (log ++ (pins 0 0 ∷ []))
