-- ===== src/Relay.antt =====
-- ESP_AKS/lib/RelayManager/RelayManager.cpp: the driver of the ten contactors behind an MCP23S17
-- on SPI. The singleton's fields are the record `Manager`. The SPI bus and the chip behind it are
-- not part of the repository: a write and a read of a register are a parameter, the read with the
-- failure of its transaction. A failed write is only logged by the source, so it is a `write` that
-- leaves the device as it was.
pub mod Verify
pub mod Adapter
mod Tests
use Prim.Native.Nat.{bit_and, bit_or}
use tufan_aks.Base.{
  ℕ, ◌-◌, ◌/◌, ◌%◌, ◌^◌, ◌==◌, leb, ltb, Bool, true, false, not, ◌&&◌, ◌||◌, if◌then◌else◌, Option,
  none, some,
}
use tufan_aks.Base.Words.{sub32}
use tufan_aks.Config.{relay_total_channels, relay_verify_period_ms}

pub record SpiDevice : Type 1 where
  pub Device : Type 0
  pub write : ℕ → ℕ → Device → Device  -- register, value
  pub read : ℕ → Device → Option ℕ × Device

-- The registers of the MCP23S17.
abbrev pub iodira : ℕ
iodira = 0x00

abbrev pub iodirb : ℕ
iodirb = 0x01

abbrev pub olata : ℕ
olata = 0x14

abbrev pub olatb : ℕ
olatb = 0x15

-- `spi_attached` says that the device handle is not null.
pub record Manager (Device : Type 0) : Type 0 where
  pub relay_state : ℕ  -- uint16
  pub spi_attached : Bool
  pub device : Device
  pub initialized : Bool
  pub actuator_fault : Bool
  pub last_verify_ms : ℕ  -- uint32
  pub verify_started : Bool

-- `uint16_t hw = ~cur` and its two bytes: the hardware is active-low.
abbrev pub low_byte : ℕ → ℕ
low_byte cur = (65535 - cur) % 256

abbrev pub high_byte : ℕ → ℕ
high_byte cur = (65535 - cur) / 256 % 256

module _ {Device : Type 0} where
  pub get_relay_state : Manager Device → ℕ → Bool
  get_relay_state m ch =
      if leb relay_total_channels ch then false else m.relay_state / 2 ^ ch % 2 == 1

  unfoldable pub has_actuator_fault : Manager Device → Bool
  has_actuator_fault m = m.actuator_fault

  pub clear_actuator_fault : Manager Device → Manager Device
  clear_actuator_fault m = record m { actuator_fault = false }

module _ (S : SpiDevice) where
  abbrev pub Driver : Type 0
  Driver = Manager S.Device

  pub write_register : ℕ → ℕ → Driver → Driver
  write_register reg value m =
      if m.spi_attached then record m { device = S.write reg value m.device } else m

  pub read_register : ℕ → Driver → Option ℕ × Driver
  read_register reg m =
      let (r, d) = S.read reg m.device in
      (if m.spi_attached then r else none, if m.spi_attached then record m { device = d } else m)

  -- A chain of reads that stops at the first failure, as `&&` does in the source.
  infixl 5 ◌>>=◌
  abbrev ◌>>=◌ :
      {A B : Type 0}
      → (Driver → Option A × Driver)
      → (A → Driver → Option B × Driver)
      → Driver
      → Option B × Driver
  ◌>>=◌ f g m = elim (f m).0 [ none ↦ (none, (f m).1) | some a ↦ g a (f m).1 ]

  abbrev pub Outputs : Type 0
  Outputs = ℕ × ℕ × ℕ × ℕ

  -- OLATA, OLATB, IODIRA and IODIRB
  pub read_outputs : Driver → Option Outputs × Driver
  read_outputs = do
    a ← read_register olata
    b ← read_register olatb
    i ← read_register iodira
    j ← read_register iodirb
    λ m. (some (a, b, i, j), m)

  -- The outputs read back are those that the shadow state asks for.
  pub matches : ℕ → Option Outputs → Bool
  matches cur none = false
  matches cur (some (a, b, i, j)) = a == low_byte cur && b == high_byte cur && i == 0 && j == 0

  pub write_outputs : ℕ → Driver → Driver
  unfolding write_register
  write_outputs cur m = write_register olatb (high_byte cur) (write_register olata (low_byte cur) m)

  -- the safe order: outputs high, then the pins to output
  pub safe_init : Driver → Driver
  unfolding write_register
  safe_init m =
      write_register iodirb 0
        (write_register iodira 0 (write_register olatb 0xFF (write_register olata 0xFF m)))

  pub reinit_and_reassert : Driver → Driver
  reinit_and_reassert m = write_outputs m.relay_state (safe_init m)

  pub verify_outputs : Driver → Bool × Driver
  verify_outputs m =
      if not m.initialized || not m.spi_attached
      then (true, m)
      else (let (seen, m₁) = read_outputs m in
          if matches m.relay_state seen then (true, m₁) else (
            false,
            (read_outputs (record (reinit_and_reassert m₁) { actuator_fault = true })).1,
          ))

  -- `bus` and `added` are what the two calls that set up SPI return.
  pub begin : Bool → Bool → Driver → Bool × Driver
  begin bus added m =
      if not bus
      then (false, m)
      else if not added
      then (false, m)
      else (let m₁ = safe_init (record m { spi_attached = true }) in
          (true, (verify_outputs (record m₁ { relay_state = 0; initialized = true })).1))

  -- `cur |= 1u << channel` or `cur &= ~(1u << channel)`
  abbrev pub with_channel : ℕ → Bool → ℕ → ℕ
  with_channel ch on cur = if on then bit_or cur (2 ^ ch) else bit_and cur (65535 - 2 ^ ch)

  pub set_relay : ℕ → Bool → Driver → Driver
  set_relay ch on m =
      if not m.initialized || leb relay_total_channels ch
      then m
      else (let cur = with_channel ch on m.relay_state in
          (verify_outputs (write_outputs cur (record m { relay_state = cur }))).1)

  abbrev pub all_closed : ℕ
  all_closed = 2 ^ relay_total_channels - 1

  pub all_on : Driver → Driver
  all_on m =
      if not m.initialized
      then m
      else (verify_outputs (write_outputs all_closed (record m { relay_state = all_closed }))).1

  -- `silent` concerns the log only.
  pub all_off : Bool → Driver → Driver
  all_off silent m =
      (verify_outputs
        (write_register olatb 0xFF (write_register olata 0xFF (record m { relay_state = 0 })))).1

  unfoldable pub verify_if_due : ℕ → Driver → Driver
  verify_if_due now m =
      if not m.initialized
      then m
      else if not m.verify_started
      then record m { verify_started = true; last_verify_ms = now }
      else if ltb (sub32 now m.last_verify_ms) relay_verify_period_ms
      then m
      else (verify_outputs (record m { last_verify_ms = now })).1
