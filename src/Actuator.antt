-- ===== src/Actuator.antt =====
-- ESP_AKS/lib/VcuLogic/IRelayActuator.h: the interface through which the state machine drives the
-- contactors, with the laws that it relies on. `Relay.Adapter` fills it with RelayManager.
use tufan_aks.Base.{ℕ, ◌≡◌, ◌<◌, Bool, true, false}

pub record RelayActuator : Type 1 where
  pub State : Type 0
  pub all_on : State → State
  pub all_off : Bool → State → State  -- silent
  pub set_relay : ℕ → Bool → State → State
  pub verify_if_due : ℕ → State → State
  pub verify_outputs : State → Bool × State
  pub has_actuator_fault : State → Bool
  pub clear_actuator_fault : State → State
  -- the driver has been set up; whether a channel is commanded closed
  pub usable : State → Bool
  pub closed : State → ℕ → Bool
  pub all_off_opens : (silent : Bool) (s : State) (ch : ℕ) → closed (all_off silent s) ch ≡ false
  pub all_on_closes : (s : State) (ch : ℕ) → usable s ≡ true → ch < 10 → closed (all_on s) ch ≡ true
  pub verify_keeps : (now : ℕ) (s : State) (ch : ℕ) → closed (verify_if_due now s) ch ≡ closed s ch
  pub clear_keeps : (s : State) (ch : ℕ) → closed (clear_actuator_fault s) ch ≡ closed s ch
  pub clear_clears : (s : State) → has_actuator_fault (clear_actuator_fault s) ≡ false
  pub verify_latches :
      (now : ℕ) (s : State)
      → has_actuator_fault s ≡ true
      → has_actuator_fault (verify_if_due now s) ≡ true
  pub verify_usable : (now : ℕ) (s : State) → usable (verify_if_due now s) ≡ usable s
  pub all_on_usable : (s : State) → usable (all_on s) ≡ usable s
  pub all_off_usable : (silent : Bool) (s : State) → usable (all_off silent s) ≡ usable s
  pub clear_usable : (s : State) → usable (clear_actuator_fault s) ≡ usable s
