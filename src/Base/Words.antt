-- ===== src/Base/Words.antt =====
-- Unsigned words of fixed width, and the two's complement reading of a word.
use Prim.Native.Nat.{ℕ, ◌+◌, ◌-◌, ◌%◌, ◌<◌}
use mathlib.Core.Path.{◌≡◌}
use native.Mathlib.Omega.{arith}
use tufan_aks.Base.Tests.{ltb, if◌then◌else◌}
use tufan_aks.Base.Int.{ℤ, pos, negsuc}

abbrev pub u8_mod : ℕ
u8_mod = 256

abbrev pub u16_mod : ℕ
u16_mod = 65536

abbrev pub u32_mod : ℕ
u32_mod = 4294967296

abbrev pub u64_mod : ℕ
u64_mod = 18446744073709551616

-- uint32_t a + b and a - b.
abbrev pub add32 : ℕ → ℕ → ℕ
add32 a b = (a + b) % u32_mod

abbrev pub sub32 : ℕ → ℕ → ℕ
sub32 a b = (a + u32_mod - b) % u32_mod

-- uint64_t a - b.
abbrev pub sub64 : ℕ → ℕ → ℕ
sub64 a b = (a + u64_mod - b) % u64_mod

-- static_cast<int8_t> and static_cast<int16_t> of a word of that width.
abbrev pub signed8 : ℕ → ℤ
signed8 w = if ltb w 128 then pos w else negsuc (255 - w)

abbrev pub signed16 : ℕ → ℤ
signed16 w = if ltb w 32768 then pos w else negsuc (65535 - w)

-- The clock's difference is the time elapsed, also across a wrap of the clock.
pub sub32-add32 : (t d : ℕ) → t < u32_mod → d < u32_mod → sub32 (add32 t d) t ≡ d
sub32-add32 t d ht hd = omega arith
