-- ===== src/Tasks/Radio.antt =====
-- The radio task, the loop of `vTask_LoRa_UKS` of ESP_AKS/src/main.cpp: a round reads what has arrived, steps the link,
-- and sends or samples. What the round reads from the hardware, the clocks and the queue of snapshots is an
-- argument. The set-up before the loop is in Lora.
pub mod Run
pub mod Budget
use tufan_aks.Base.{
  ℕ, leb, Bool, true, false, not, if◌then◌else◌, List, [], ◌∷◌, Option, none, some,
}
use tufan_aks.Base.Words.{sub32}
use tufan_aks.Data.{TelemetryData}
use tufan_aks.Buffer.{Ring, new_ring}
use tufan_aks.Uplink.{UplinkScheduler, on_rx_byte, update_link, offline_sample, on_tx_tick_link_up}
use tufan_aks.Telemetry.{Telemetry}
use tufan_aks.Tasks.Transmit.{TxPort, TxContext, tx_send}

-- The scheduler, the ring, the context of the callback and the tick of the last transmission.
pub record Radio (S : Type 0) : Type 0 where
  pub scheduler : UplinkScheduler
  pub ring : Ring
  pub tx : TxContext S
  pub last_telemetry_tick : ℕ  -- uint32

-- The bytes with the times at which they are handled; the time of the link's step and of a sample; the tick count; and
-- the snapshot, if there is one.
pub record Round : Type 0 where
  pub received : List (ℕ × ℕ)
  pub link_ms : ℕ
  pub sample_ms : ℕ
  pub now_tick : ℕ
  pub snapshot : Option TelemetryData

pub on_rx_bytes : List (ℕ × ℕ) → UplinkScheduler → UplinkScheduler
on_rx_bytes [] u = u
on_rx_bytes (b ∷ bs) u = on_rx_bytes bs (on_rx_byte (b.0) (b.1) u)

module _ {S : Type 0} (port : TxPort S) (boot_ms tx_period_ticks : ℕ) where
  -- With the link down: a sample of the snapshot, if there is one.
  pub sample_snapshot : Round → Radio S → Radio S
  sample_snapshot i r = elim i.snapshot [
    | none ↦ r
    | some d ↦
        (let o = offline_sample i.sample_ms d r.ring r.scheduler in
          record r { ring = o.1; scheduler = o.2 })
  ]

  -- With the link up: replays and the live packet.
  pub send_snapshot : Round → Radio S → Radio S
  send_snapshot i r =
      let t = on_tx_tick_link_up (tx_send port) i.snapshot r.scheduler r.ring r.tx in
      record r { ring = t.1; tx = t.2 }

  pub tx_tick : Round → Radio S → Radio S
  tx_tick i r =
      if leb tx_period_ticks (sub32 i.now_tick r.last_telemetry_tick)
      then (if not r.scheduler.link_down
          then send_snapshot i (record r { last_telemetry_tick = i.now_tick })
          else sample_snapshot i (record r { last_telemetry_tick = i.now_tick }))
      else r

  pub round : Round → Radio S → Radio S
  round i r = tx_tick i (record r {
    scheduler = (update_link i.link_ms boot_ms r.ring (on_rx_bytes i.received r.scheduler)).1;
  })

  pub rounds : List Round → Radio S → Radio S
  rounds [] r = r
  rounds (i ∷ is) r = rounds is (round i r)
