-- ===== src/Uplink.antt =====
-- The scheduler of the radio uplink, ESP_AKS/lib/LoraLink/UplinkScheduler.cpp, with the pure functions
-- it calls: LinkMonitor.h and LoraRxHandler.h of the same folder.
--
-- The ring is a static of the source, here an argument and a result. The injected callback
-- `send` is a parameter: it takes a packet, whether it is a replay, and the state behind `ctx`, and
-- gives its answer and the next state.
pub mod Link
pub mod Replay
mod Tests
use tufan_aks.Base.{
  ℕ, zero, suc, ◌+◌, ◌%◌, ◌==◌, leb, ltb, Bool, true, false, not, ◌&&◌, if◌then◌else◌, Option, none,
  some,
}
use tufan_aks.Base.Words.{sub64, u32_mod}
use tufan_aks.Data.{TelemetryData}
use tufan_aks.Buffer.{Ring, ob_push, ob_peek, ob_drop_front, ob_count, offline_should_sample}

-- uint64_t times
pub link_check_timeout : ℕ → ℕ → ℕ → Bool
link_check_timeout now last_hb timeout =
    if last_hb == 0 then false else ltb timeout (sub64 now last_hb)

pub link_check_timeout_with_boot_grace : ℕ → ℕ → ℕ → ℕ → ℕ → Bool
link_check_timeout_with_boot_grace now last_hb timeout boot boot_grace =
    if last_hb == 0 then ltb boot_grace (sub64 now boot) else link_check_timeout now last_hb timeout

pub record UplinkScheduler : Type 0 where
  pub link_timeout : ℕ  -- milliseconds, as every time below
  pub boot_grace : ℕ
  pub offline_sample_period : ℕ
  pub replay_burst_per_tick : ℕ
  pub unknown_byte_warn_interval : ℕ
  pub link_down : Bool
  pub last_heartbeat : ℕ
  pub unknown_rx_byte_count : ℕ  -- uint32
  pub last_unknown_rx_byte_warn : ℕ
  pub last_offline_sample : ℕ
  pub offline_first_ts : ℕ
  pub offline_last_ts : ℕ
  pub offline_has_samples : Bool

pub data RxResult : Type 0 where
  heartbeat unknown_quiet unknown_warn : RxResult

-- `lora_note_unknown_byte`, which also counts the byte.
abbrev pub should_warn : ℕ → UplinkScheduler → Bool
should_warn now u = leb u.unknown_byte_warn_interval (sub64 now u.last_unknown_rx_byte_warn)

abbrev pub uks_heartbeat_byte : ℕ
uks_heartbeat_byte = 0xB0

pub on_rx_byte_result : ℕ → ℕ → UplinkScheduler → RxResult
on_rx_byte_result byte now u =
    if byte == uks_heartbeat_byte
    then heartbeat
    else if should_warn now u
    then unknown_warn
    else unknown_quiet

unfoldable pub on_rx_byte : ℕ → ℕ → UplinkScheduler → UplinkScheduler
on_rx_byte byte now u =
    if byte == uks_heartbeat_byte then record u { last_heartbeat = now } else record u {
      unknown_rx_byte_count = (u.unknown_rx_byte_count + 1) % u32_mod;
      last_unknown_rx_byte_warn = if should_warn now u then now else u.last_unknown_rx_byte_warn;
    }

pub record LinkTransition : Type 0 where
  pub changed : Bool
  pub down_after : Bool
  pub became_down : Bool
  pub became_up : Bool
  pub had_samples : Bool
  pub buffered_count : ℕ
  pub first_ts : ℕ
  pub last_ts : ℕ

unfoldable pub update_link : ℕ → ℕ → Ring → UplinkScheduler → LinkTransition × UplinkScheduler
update_link now boot r u =
    let timeout =
      link_check_timeout_with_boot_grace now u.last_heartbeat u.link_timeout boot u.boot_grace in
    if timeout && not u.link_down
    then (
      record {
        changed = true;
        down_after = true;
        became_down = true;
        became_up = false;
        had_samples = false;
        buffered_count = 0;
        first_ts = 0;
        last_ts = 0;
      },
      record u { link_down = true; last_offline_sample = 0; offline_has_samples = false },
    )
    else if not timeout && u.link_down && not (u.last_heartbeat == 0)
    then (
      record {
        changed = true;
        down_after = false;
        became_down = false;
        became_up = true;
        had_samples = u.offline_has_samples;
        buffered_count = ob_count r;
        first_ts = u.offline_first_ts;
        last_ts = u.offline_last_ts;
      },
      record u { link_down = false },
    )
    else (
      record {
        changed = false;
        down_after = u.link_down;
        became_down = false;
        became_up = false;
        had_samples = false;
        buffered_count = 0;
        first_ts = 0;
        last_ts = 0;
      },
      u,
    )

unfoldable pub offline_sample :
    ℕ → TelemetryData → Ring → UplinkScheduler → Bool × Ring × UplinkScheduler
offline_sample now live r u =
    if not (
      offline_should_sample now u.last_offline_sample u.offline_has_samples u.offline_sample_period)
    then (false, r, u)
    else (
      true,
      ob_push live r,
      record u {
        last_offline_sample = now;
        offline_first_ts =
            if not u.offline_has_samples then live.timestamp_ms else u.offline_first_ts;
        offline_has_samples = true;
        offline_last_ts = live.timestamp_ms;
      },
    )

module _ {S : Type 0} (send : TelemetryData → Bool → S → Bool × S) where
  -- The replay loop with the number of turns left: the packets sent, the ring and the state.
  unfoldable pub replay : ℕ → Ring → S → ℕ × Ring × S
  replay zero r s = (0, r, s)
  replay (suc b) r s = elim (ob_peek r) [
    | none ↦ (0, r, s)
    | some x ↦ elim ((send x true s).0) [
      | false ↦ (0, r, (send x true s).1)
      | true ↦
          (let rest = replay b (ob_drop_front r).1 (send x true s).1 in
            (suc (rest.0), rest.1, rest.2))
    ]
  ]

  unfoldable pub send_live : Option TelemetryData → S → ℕ × S
  send_live none s = (0, s)
  send_live (some live) s = (if (send live false s).0 then 1 else 0, (send live false s).1)

  -- `haveLive` and `live` are one `Option`.
  unfoldable pub on_tx_tick_link_up :
      Option TelemetryData → UplinkScheduler → Ring → S → ℕ × Ring × S
  on_tx_tick_link_up live u r s =
      let a = replay u.replay_burst_per_tick r s in
      let b = send_live live (a.2) in (a.0 + b.0, a.1, b.1)
