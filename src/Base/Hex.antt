-- ===== src/Base/Hex.antt =====
-- Bytes as printf writes them in hexadecimal, `%02X`.
use Prim.Native.Nat.{ℕ, ◌+◌, ◌-◌, ◌/◌, ◌%◌}
use mathlib.Core.List.{List, [], ◌∷◌}
use tufan_aks.Base.Tests.{ltb, if◌then◌else◌}

abbrev pub hex_digit : ℕ → ℕ
hex_digit n = if ltb n 10 then b'0' + n else b'A' + n - 10

abbrev pub print_hex : ℕ → List ℕ
print_hex n = hex_digit (n / 16) ∷ hex_digit (n % 16) ∷ []
