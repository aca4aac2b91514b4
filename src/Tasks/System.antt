-- ===== src/Tasks/System.antt =====
-- What the tasks of ESP_AKS/src/main.cpp share: the mailbox of snapshots, what the CAN task puts there, and the set-up in
-- `app_main`.
use tufan_aks.Base.{ℕ, ◌≡◌, Bool, true, not, if◌then◌else◌, Option, none, some}
use tufan_aks.Data.{TelemetryData}
use tufan_aks.Actuator.{RelayActuator}
use tufan_aks.Queue.{EventQueue}
use tufan_aks.Vcu.{VcuEvent, Machine, init, set_torque_sink}
use tufan_aks.Can.{CanManager}
use tufan_aks.Can.Update.{get_telemetry_data}

-- A FreeRTOS queue of length 1, as `xQueueOverwrite` and `xQueuePeek` use it.
pub record Mailbox (A : Type 0) : Type 1 where
  pub Box : Type 0
  pub overwrite : A → Box → Box
  pub peek : Box → Option A
  pub peek-overwrite : (a : A) (b : Box) → peek (overwrite a b) ≡ some a

-- What the CAN task passes on: the speed is computed in floating point, and is an argument, as the time is.
unfoldable pub snapshot_of : ℕ → ℕ → CanManager → TelemetryData
snapshot_of speed now_ms m = record (get_telemetry_data m) {
  speed_kmh_x10 = speed;
  timestamp_ms = now_ms;
}

module _ (R : RelayActuator) (Q : EventQueue VcuEvent) where
  -- The set-up: none of the tasks starts if the relays or the mailbox cannot be set up.
  unfoldable pub app_main :
      Bool → Option Q.Handle → Bool → Bool → Machine R Q → Option (Machine R Q)
  app_main relays_ok queue mutex mailbox_ok s =
      if not relays_ok
      then none
      else if not mailbox_ok
      then none
      else some (set_torque_sink true (init R Q queue mutex s))
