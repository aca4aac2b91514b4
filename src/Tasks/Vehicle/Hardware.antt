-- ===== src/Tasks/Vehicle/Hardware.antt =====
-- The hardware and the services of FreeRTOS that the tasks of ESP_AKS/src/main.cpp stand on, as one parameter.
use tufan_aks.Base.{ℕ, Bool}
use tufan_aks.Data.{TelemetryData}
use tufan_aks.Actuator.{RelayActuator}
use tufan_aks.Queue.{EventQueue}
use tufan_aks.Vcu.{VcuEvent}
use tufan_aks.Can.Begin.{TwaiDriver}
use tufan_aks.Lora.{LoraHal}
use tufan_aks.Lora.Init.{UartDriver}
use tufan_aks.Tasks.Transmit.{TxPort}
use tufan_aks.Tasks.System.{Mailbox}

pub record Board : Type 1 where
  pub relays : RelayActuator
  pub events : EventQueue VcuEvent
  pub mailbox : Mailbox TelemetryData
  pub ms_to_ticks : ℕ → ℕ
  pub Bus : Type 0
  pub bus : TwaiDriver Bus
  -- the radio's hardware: its UART while it is set up, the module, and the transmission
  pub Lora : Type 0
  pub lora_uart : UartDriver Lora
  pub lora_hal : LoraHal Lora
  pub lora_port : TxPort Lora
  -- `HMI_areAllContactorsClosed`, which asks the relay driver
  pub all_closed : relays.State → Bool
