-- ===== src/Relay/Adapter.antt =====
-- The adapter of ESP_AKS/src/main.cpp through which the state machine drives RelayManager: the
-- manager's functions meet the laws of the interface.
use native.Mathlib.Nat.{zero-div}
use tufan_aks.Base.{ℕ, zero, suc, ◌/◌, ◌%◌, ◌^◌, ◌≡◌, refl, ◌<◌, Bool, true, false, arith}
use tufan_aks.Actuator.{RelayActuator}
use tufan_aks.Relay.{
  SpiDevice, Manager, Driver, get_relay_state, has_actuator_fault, clear_actuator_fault,
  write_register, write_outputs, verify_outputs, set_relay, all_on, all_off, verify_if_due,
  all_closed, olata, olatb,
}
use tufan_aks.Relay.Verify.{write_outputs-SameShadow, verify_outputs-keeps}

bit-zero : (n : ℕ) → 0 / n % 2 ≡ 0
bit-zero n = rw (zero-div n)

-- Each of the ten bits of the word for all channels is set.
bit-all_closed : (ch : ℕ) → ch < 10 → 1023 / 2 ^ ch % 2 ≡ 1
bit-all_closed zero h = refl
bit-all_closed (suc zero) h = refl
bit-all_closed (suc (suc zero)) h = refl
bit-all_closed (suc (suc (suc zero))) h = refl
bit-all_closed (suc (suc (suc (suc zero)))) h = refl
bit-all_closed (suc (suc (suc (suc (suc zero))))) h = refl
bit-all_closed (suc (suc (suc (suc (suc (suc zero)))))) h = refl
bit-all_closed (suc (suc (suc (suc (suc (suc (suc zero))))))) h = refl
bit-all_closed (suc (suc (suc (suc (suc (suc (suc (suc zero)))))))) h = refl
bit-all_closed (suc (suc (suc (suc (suc (suc (suc (suc (suc zero))))))))) h = refl
bit-all_closed (suc (suc (suc (suc (suc (suc (suc (suc (suc (suc n)))))))))) h =
    absurd (omega arith)

pub closed_of_zero :
    {D : Type 0} (m : Manager D) (ch : ℕ) → m.relay_state ≡ 0 → get_relay_state m ch ≡ false
unfolding get_relay_state
closed_of_zero m ch h = ground (arith, bit-zero (2 ^ ch))

pub closed_of_all :
    {D : Type 0} (m : Manager D) (ch : ℕ)
    → m.relay_state ≡ 1023
    → ch < 10
    → get_relay_state m ch ≡ true
unfolding get_relay_state
closed_of_all m ch h r = ground (arith, bit-all_closed ch r)

pub closed_of_eq :
    {D : Type 0} (m t : Manager D) (ch : ℕ)
    → t.relay_state ≡ m.relay_state
    → get_relay_state t ch ≡ get_relay_state m ch
unfolding get_relay_state
closed_of_eq m t ch h = ground arith

module _ (S : SpiDevice) where
  -- `allOff` commands every channel open, set up or not, and keeps whether it is set up.
  pub all_off_state :
      (silent : Bool) (m : Driver S)
      → ((all_off S silent m).relay_state ≡ 0) × ((all_off S silent m).initialized ≡ m.initialized)
  unfolding all_off write_register
  all_off_state silent m = ground (
    arith,
    verify_outputs-keeps S
        (write_register S olatb 0xFF (write_register S olata 0xFF (record m { relay_state = 0 }))),
  )

  pub all_on_state :
      (m : Driver S)
      → ((all_on S m).initialized ≡ m.initialized)
        × (m.initialized ≡ true → (all_on S m).relay_state ≡ 1023)
  unfolding all_on
  all_on_state m =
      let t : Driver S = record m { relay_state = all_closed S } in
      ground (
        arith,
        write_outputs-SameShadow S (all_closed S) t,
        verify_outputs-keeps S (write_outputs S (all_closed S) t),
      )

  pub verify_if_due_state :
      (now : ℕ) (m : Driver S)
      → ((verify_if_due S now m).relay_state ≡ m.relay_state)
        × ((verify_if_due S now m).initialized ≡ m.initialized)
        × (m.actuator_fault ≡ true → (verify_if_due S now m).actuator_fault ≡ true)
  unfolding verify_if_due
  verify_if_due_state now m =
      ground (arith, verify_outputs-keeps S (record m { last_verify_ms = now }))

  pub clear_keeps :
      (m : Driver S) (ch : ℕ) → get_relay_state (clear_actuator_fault m) ch ≡ get_relay_state m ch
  unfolding clear_actuator_fault
  clear_keeps m ch = closed_of_eq m _ ch refl

  pub clear_clears : (m : Driver S) → has_actuator_fault (clear_actuator_fault m) ≡ false
  unfolding clear_actuator_fault has_actuator_fault
  clear_clears m = refl

  pub clear_initialized : (m : Driver S) → (clear_actuator_fault m).initialized ≡ m.initialized
  unfolding clear_actuator_fault
  clear_initialized m = refl

  pub verify_latches :
      (now : ℕ) (m : Driver S)
      → has_actuator_fault m ≡ true
      → has_actuator_fault (verify_if_due S now m) ≡ true
  unfolding has_actuator_fault
  verify_latches now m h = (verify_if_due_state now m).2 h

  -- RelayManager as the actuator of the state machine.
  abbrev pub relay_actuator : RelayActuator
  relay_actuator = record {
    State = Driver S;
    all_on = all_on S;
    all_off = all_off S;
    set_relay = set_relay S;
    verify_if_due = verify_if_due S;
    verify_outputs = verify_outputs S;
    has_actuator_fault = has_actuator_fault;
    clear_actuator_fault = clear_actuator_fault;
    usable = λ m. m.initialized;
    closed = get_relay_state;
    all_off_opens = λ b m ch. closed_of_zero (all_off S b m) ch (all_off_state b m).0;
    all_on_closes = λ m ch u r. closed_of_all (all_on S m) ch ((all_on_state m).1 u) r;
    verify_keeps =
        λ now m ch. closed_of_eq m (verify_if_due S now m) ch (verify_if_due_state now m).0;
    clear_keeps = clear_keeps;
    clear_clears = clear_clears;
    verify_latches = verify_latches;
    verify_usable = λ now m. (verify_if_due_state now m).1;
    all_on_usable = λ m. (all_on_state m).0;
    all_off_usable = λ b m. (all_off_state b m).1;
    clear_usable = clear_initialized;
  }
