-- ===== src/Lora/Init.antt =====
-- The set-up of the radio's UART with a bounded number of attempts: `EspLoraHal::begin` of
-- ESP_AKS/src/main.cpp, with `uart_init_retry_decision` of ESP_AKS/lib/LoraLink/UartInitRetry.h. The driver
-- of the UART and the pause are a parameter; the configuration of the pins stops the program if it fails, and is left out.
pub mod Attempts
use tufan_aks.Base.{ℕ, zero, suc, ◌+◌, Bool, true, false, ◌&&◌, if◌then◌else◌, Option, none, some}
use tufan_aks.Base.Int.{ℤ, pos, leb_ℤ}

pub data UartInitDecision : Type 0 where
  retry give_up_disabled : UartInitDecision

pub uart_init_retry_decision : ℤ → ℤ → UartInitDecision
uart_init_retry_decision failed_attempts max_attempts =
    if leb_ℤ max_attempts failed_attempts then give_up_disabled else retry

pub record UartDriver (S : Type 0) : Type 0 where
  pub is_driver_installed : S → Bool
  pub driver_delete : S → S
  pub param_config : S → Bool × S  -- true for ESP_OK, as below
  pub set_pin : S → Bool × S
  pub driver_install : S → Bool × S
  pub pause : S → S  -- vTaskDelay of a second, and the watchdog

abbrev pub max_init_attempts : ℕ
max_init_attempts = 5

module _ {S : Type 0} (driver : UartDriver S) where
  -- A round of the loop up to the test of its three answers.
  unfoldable pub attempt : S → Bool × S
  attempt s =
      let s0 = if driver.is_driver_installed s then driver.driver_delete s else s in
      let r1 = driver.param_config s0 in
      let r2 = driver.set_pin (r1.1) in
      let r3 = driver.driver_install (r2.1) in (r1.0 && r2.0 && r3.0, r3.1)

module _ {S : Type 0} (try_once : S → Bool × S) (pause : S → S) where
  -- The loop with the number of rounds left, `none` if they run out, and the failures so far.
  unfoldable pub init_loop : ℕ → ℕ → S → Option (Bool × S)
  init_loop zero failed s = none
  init_loop (suc rounds) failed s = elim (try_once s).0 [
    | true ↦ some (true, (try_once s).1)
    | false ↦ elim (uart_init_retry_decision (pos (failed + 1)) (pos max_init_attempts)) [
      | give_up_disabled ↦ some (false, (try_once s).1)
      | retry ↦ init_loop rounds (failed + 1) (pause (try_once s).1)
    ]
  ]

unfoldable pub begin_uart : {S : Type 0} → UartDriver S → S → Option (Bool × S)
begin_uart driver s = init_loop (attempt driver) driver.pause max_init_attempts 0 s
