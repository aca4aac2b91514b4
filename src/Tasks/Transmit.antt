-- ===== src/Tasks/Transmit.antt =====
-- `LoRa_txSend` of ESP_AKS/src/main.cpp, the callback with which the scheduler of the uplink sends, and the
-- packets that a tick of the radio task writes with it. The AUX pin, the UART and the watchdog are a
-- parameter.
pub mod Offer
pub mod Room
pub mod Bytes
pub mod Drain
pub mod Rate
mod Tests
use tufan_aks.Base.{
  ℕ, ◌+◌, ◌%◌, ◌≡◌, ◌≤◌, ◌<◌, ◌⊎◌, inl, inr, refl, arith, Bool, true, false, not, ◌||◌,
  if◌then◌else◌, ltb, List, [], ◌∷◌, ◌++◌, length, Option, none, some, Bool-cases, Option-cases,
}
use tufan_aks.Base.Int.{ℤ, pos, ltb_ℤ}
use tufan_aks.Base.Words.{u32_mod}
use tufan_aks.Data.{TelemetryData}
use tufan_aks.Sanitize.{sanitize_for_uplink}
use tufan_aks.Telemetry.{Telemetry, send_status, frame, payload}
use tufan_aks.Telemetry.Frame.{Fits, frame-whole}

pub record TxPort (S : Type 0) : Type 0 where
  pub is_aux_ready : S → Bool × S
  pub tx_buffer_free : S → Option ℕ × S  -- `none` for an error
  pub uart_write : List ℕ → S → ℤ × S
  pub feed_watchdog : S → S

-- LoRa_TxCtx and `s_loraTxDeferredCount`
pub record TxContext (S : Type 0) : Type 0 where
  pub telemetry : Telemetry
  pub aux_not_ready_logged : Bool
  pub deferred_count : ℕ  -- uint32
  pub hardware : S

abbrev pub frame_max_bytes : ℕ
frame_max_bytes = 120

-- There is no room for a whole frame.
abbrev is_deferred : Option ℕ → Bool
is_deferred none = true
is_deferred (some free) = ltb free frame_max_bytes

module _ {S : Type 0} (port : TxPort S) where
  -- The packet is written.
  pub transmit : TelemetryData → Bool → TxContext S → TxContext S
  transmit packet is_replay c =
      let sent = send_status port.uart_write (sanitize_for_uplink packet) c.telemetry c.hardware in
      record c {
        telemetry = sent.0;
        aux_not_ready_logged = false;
        hardware = if is_replay then port.feed_watchdog (sent.1) else sent.1;
      }

  -- The space in the UART's buffer decides.
  pub send_if_free : TelemetryData → Bool → TxContext S → Bool × TxContext S
  send_if_free packet is_replay c =
      let free = port.tx_buffer_free c.hardware in
      if is_deferred (free.0)
      then (
        false,
        record c { deferred_count = (c.deferred_count + 1) % u32_mod; hardware = free.1 },
      )
      else (true, transmit packet is_replay (record c { hardware = free.1 }))

  pub tx_send : TelemetryData → Bool → TxContext S → Bool × TxContext S
  tx_send packet is_replay c =
      let aux = port.is_aux_ready c.hardware in
      if not (aux.0)
      then (false, record c { aux_not_ready_logged = true; hardware = aux.1 })
      else send_if_free packet is_replay (record c { hardware = aux.1 })
