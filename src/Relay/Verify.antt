-- ===== src/Relay/Verify.antt =====
-- The read-back of the outputs: what it reports, what it repairs, and what it leaves alone.
use tufan_aks.Base.{ℕ, ◌≡◌, ◌≢◌, true, false, some, arith}
use tufan_aks.Relay.{
  SpiDevice, Driver, iodira, iodirb, olata, olatb, low_byte, high_byte, write_register,
  read_register, read_outputs, write_outputs, safe_init, reinit_and_reassert, verify_outputs,
  Outputs,
}

module _ (S : SpiDevice) where
  -- Everything but the device is as it was.
  pub record SameShadow (m t : Driver S) : Type 0 where
    pub state_eq : t.relay_state ≡ m.relay_state
    pub attached_eq : t.spi_attached ≡ m.spi_attached
    pub initialized_eq : t.initialized ≡ m.initialized
    pub fault_eq : t.actuator_fault ≡ m.actuator_fault
    pub last_eq : t.last_verify_ms ≡ m.last_verify_ms
    pub started_eq : t.verify_started ≡ m.verify_started

  pub read_outputs-SameShadow : (m : Driver S) → SameShadow m (read_outputs S m).1
  unfolding read_outputs read_register
  read_outputs-SameShadow m = ground arith

  pub write_outputs-SameShadow : (cur : ℕ) (m : Driver S) → SameShadow m (write_outputs S cur m)
  unfolding write_outputs
  write_outputs-SameShadow cur m = ground arith

  pub reinit-SameShadow : (m : Driver S) → SameShadow m (reinit_and_reassert S m)
  unfolding reinit_and_reassert safe_init write_outputs
  reinit-SameShadow m = ground arith

  -- A device that keeps what is written to each register, and reads it back.
  pub record IsRegisterFile : Type 0 where
    pub value : S.Device → ℕ → ℕ
    pub read_value : (r : ℕ) (d : S.Device) → (S.read r d).0 ≡ some (value d r)
    pub read_keeps : (r k : ℕ) (d : S.Device) → value (S.read r d).1 k ≡ value d k
    pub write_self : (r v : ℕ) (d : S.Device) → value (S.write r v d) r ≡ v
    pub write_other : (r v k : ℕ) (d : S.Device) → r ≢ k → value (S.write r v d) k ≡ value d k

  -- Verification never changes which relays are commanded, and never clears the fault.
  pub verify_outputs-keeps :
      (m : Driver S)
      → ((verify_outputs S m).1.relay_state ≡ m.relay_state)
        × ((verify_outputs S m).1.initialized ≡ m.initialized)
        × ((verify_outputs S m).1.spi_attached ≡ m.spi_attached)
        × (m.actuator_fault ≡ true → (verify_outputs S m).1.actuator_fault ≡ true)
        × ((verify_outputs S m).0 ≡ false → (verify_outputs S m).1.actuator_fault ≡ true)
        × ((verify_outputs S m).0 ≡ true → (verify_outputs S m).1.actuator_fault ≡ m.actuator_fault)
  unfolding verify_outputs
  verify_outputs-keeps m =
      let m₁ : Driver S = (read_outputs S m).1 in
      let m₂ : Driver S = record (reinit_and_reassert S m₁) { actuator_fault = true } in
      ground (arith, read_outputs-SameShadow m, reinit-SameShadow m₁, read_outputs-SameShadow m₂)

  pub verify_outputs-last :
      (m : Driver S)
      → ((verify_outputs S m).1.last_verify_ms ≡ m.last_verify_ms)
        × ((verify_outputs S m).1.verify_started ≡ m.verify_started)
  unfolding verify_outputs
  verify_outputs-last m =
      let m₁ : Driver S = (read_outputs S m).1 in
      let m₂ : Driver S = record (reinit_and_reassert S m₁) { actuator_fault = true } in
      ground (arith, read_outputs-SameShadow m, reinit-SameShadow m₁, read_outputs-SameShadow m₂)

  module _ (F : IsRegisterFile) where
    open F use {value, read_value, read_keeps, write_self, write_other}

    -- the four registers of a device
    abbrev pub outputs : S.Device → Outputs S
    outputs d = (value d olata, value d olatb, value d iodira, value d iodirb)

    read_register-value :
        (r k : ℕ) (m : Driver S)
        → m.spi_attached ≡ true
        → ((read_register S r m).0 ≡ some (value m.device r))
          × (value (read_register S r m).1.device k ≡ value m.device k)
          × ((read_register S r m).1.spi_attached ≡ true)
    unfolding read_register
    read_register-value r k m h = ground (arith, read_value r m.device, read_keeps r k m.device)

    write_register-value :
        (r v k : ℕ) (m : Driver S)
        → m.spi_attached ≡ true
        → (value (write_register S r v m).device r ≡ v)
          × (r ≢ k → value (write_register S r v m).device k ≡ value m.device k)
          × ((write_register S r v m).spi_attached ≡ true)
    unfolding write_register
    write_register-value r v k m h =
        ground (arith, write_self r v m.device, write_other r v k m.device)

    pub read_outputs-value :
        (k : ℕ) (m : Driver S)
        → m.spi_attached ≡ true
        → ((read_outputs S m).0 ≡ some (outputs m.device))
          × (value (read_outputs S m).1.device k ≡ value m.device k)
    unfolding read_outputs
    read_outputs-value k m h =
        let m₁ : Driver S = (read_register S olata m).1 in
        let m₂ : Driver S = (read_register S olatb m₁).1 in
        let m₃ : Driver S = (read_register S iodira m₂).1 in
        let (a, a', ha) = read_register-value olata k m h in
        let (b, b', hb) = read_register-value olatb k m₁ ha in
        let (c, c', hc) = read_register-value iodira k m₂ hb in
        let (d, d', hd) = read_register-value iodirb k m₃ hc in
        let b₁ = (read_register-value olata olatb m h).1 in
        let c₁ = (read_register-value olata iodira m h).1 in
        let c₂ = (read_register-value olatb iodira m₁ ha).1 in
        let d₁ = (read_register-value olata iodirb m h).1 in
        let d₂ = (read_register-value olatb iodirb m₁ ha).1 in
        let d₃ = (read_register-value iodira iodirb m₂ hb).1 in ground arith

    -- After the outputs are written, the two latches hold the complement of the commanded relays
    -- and every other register is as it was.
    pub write_outputs-value :
        (cur : ℕ) (m : Driver S)
        → m.spi_attached ≡ true
        → let d = (write_outputs S cur m).device in
          (value d olata ≡ low_byte cur)
          × (value d olatb ≡ high_byte cur)
          × (value d iodira ≡ value m.device iodira)
          × (value d iodirb ≡ value m.device iodirb)
    unfolding write_outputs
    write_outputs-value cur m h =
        let d = m.device in
        let e = S.write olata (low_byte cur) d in
        ground (
          arith,
          write_self olata (low_byte cur) d,
          write_other olata (low_byte cur) iodira d,
          write_other olata (low_byte cur) iodirb d,
          write_self olatb (high_byte cur) e,
          write_other olatb (high_byte cur) olata e,
          write_other olatb (high_byte cur) iodira e,
          write_other olatb (high_byte cur) iodirb e,
        )

    -- The registers that drive the relays as `cur` commands.
    abbrev pub driven : ℕ → Outputs S
    driven cur = (low_byte cur, high_byte cur, 0, 0)

    -- The last step of a failed verification, from the state after the first read.
    repair : Driver S → Driver S
    repair m = (read_outputs S (record (reinit_and_reassert S m) { actuator_fault = true })).1
