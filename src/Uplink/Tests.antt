-- ===== src/Uplink/Tests.antt =====
-- The uplink's theorems with a callback that accepts a fixed number of packets.
use tufan_aks.Base.{ℕ, zero, suc, ◌≡◌, ◌≢◌, refl, ◌<◌, ◌↔◌, ◌⊎◌, inl, arith, Bool, true, false}
use tufan_aks.Data.{TelemetryData}
use tufan_aks.Fixtures.{healthy}
use tufan_aks.Buffer.{Ring, new_ring, ob_push}
use tufan_aks.Buffer.Refine.{IsRing, push-contents, new_ring-IsRing}
use tufan_aks.Uplink.{UplinkScheduler, update_link}
use tufan_aks.Uplink.Link.{link_iff, Reports}

abbrev scheduler : UplinkScheduler
scheduler = record {
  link_timeout = 3000;
  boot_grace = 5000;
  offline_sample_period = 1000;
  replay_burst_per_tick = 2;
  unknown_byte_warn_interval = 5000;
  link_down = false;
  last_heartbeat = 7000;
  unknown_rx_byte_count = 0;
  last_unknown_rx_byte_warn = 0;
  last_offline_sample = 0;
  offline_first_ts = 0;
  offline_last_ts = 0;
  offline_has_samples = false;
}

abbrev accept : TelemetryData → Bool → ℕ → Bool × ℕ
accept x is_replay zero = (false, 0)
accept x is_replay (suc n) = (true, n)

abbrev held : Ring
held = ob_push healthy new_ring

held-IsRing : IsRing held
held-IsRing = (push-contents healthy new_ring new_ring-IsRing).1

link_iff_example :
    let s = (update_link 11000 0 held scheduler).1 in
    ((s.link_down ≡ true) ↔ (
      ((scheduler.last_heartbeat ≢ 0) × (3000 < 4000))
      ⊎ ((scheduler.last_heartbeat ≡ 0) × ((false ≡ true) ⊎ (5000 < 4000)))))
    × Reports (update_link 11000 0 held scheduler).0 false s.link_down
link_iff_example =
    link_iff 11000 0 4000 held scheduler (omega arith) (inl ((λ e. omega arith), refl))
