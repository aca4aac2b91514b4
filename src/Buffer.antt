-- ===== src/Buffer.antt =====
-- The ring of telemetry samples of ESP_AKS/lib/OfflineBuffer/OfflineBuffer.cpp: the static array
-- s_buf with s_head, s_tail and s_count as the fields of one record. A function that fills a
-- structure and returns whether it did gives an `Option` beside the ring.
pub mod Refine
mod Tests
use tufan_aks.Base.{
  ℕ, ◌+◌, ◌-◌, ◌%◌, ◌==◌, leb, Bool, true, false, not, if◌then◌else◌, List, replicate, get_or, set,
  Option, none, some,
}
use tufan_aks.Base.Words.{sub64}
use tufan_aks.Data.{TelemetryData, zero_telemetry}

-- OB_CAPACITY
abbrev pub ob_capacity : ℕ
ob_capacity = 75

pub record Ring : Type 0 where
  pub buf : List TelemetryData
  pub head : ℕ
  pub tail : ℕ
  pub count : ℕ

-- The static storage, zero-initialised.
abbrev pub new_ring : Ring
new_ring = record { buf = replicate ob_capacity zero_telemetry; head = 0; tail = 0; count = 0 }

pub ob_reset : Ring → Ring
ob_reset r = record r { head = 0; tail = 0; count = 0 }

-- The oldest sample is dropped first, if the ring is full.
pub make_room : Ring → Ring
make_room r =
    if r.count == ob_capacity
    then record r { head = (r.head + 1) % ob_capacity; count = r.count - 1 }
    else r

pub store : TelemetryData → Ring → Ring
store x r = record r {
  buf = set r.buf r.tail x;
  tail = (r.tail + 1) % ob_capacity;
  count = r.count + 1;
}

-- `ob_push`, whose result is always true.
pub ob_push : TelemetryData → Ring → Ring
ob_push x r = store x (make_room r)

pub ob_drop_front : Ring → Bool × Ring
ob_drop_front r =
    if r.count == 0
    then (false, r)
    else (true, record r { head = (r.head + 1) % ob_capacity; count = r.count - 1 })

pub ob_peek : Ring → Option TelemetryData
ob_peek r = if r.count == 0 then none else some (get_or r.buf r.head zero_telemetry)

pub ob_pop : Ring → Option TelemetryData × Ring
ob_pop r = if r.count == 0 then (none, r) else (
  some (get_or r.buf r.head zero_telemetry),
  record r { head = (r.head + 1) % ob_capacity; count = r.count - 1 },
)

pub ob_count : Ring → ℕ
ob_count r = r.count

pub ob_is_empty : Ring → Bool
ob_is_empty r = r.count == 0

-- `offline_should_sample`, on uint64_t times.
pub offline_should_sample : ℕ → ℕ → Bool → ℕ → Bool
offline_should_sample now last has_sample period =
    if not has_sample then true else leb period (sub64 now last)
