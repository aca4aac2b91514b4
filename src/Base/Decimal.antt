-- ===== src/Base/Decimal.antt =====
-- Text as a list of character codes, and decimal numbers as printf writes them: `%u` and `%d`.
use Prim.Native.Nat.{ℕ, zero, suc, ◌+◌, ◌-◌, ◌*◌, ◌/◌, ◌%◌, ◌≤◌, ◌<◌}
use Prim.Native.Char.{code}
use Prim.Native.String.{String}
use mathlib.Core.Path.{◌≡◌, refl, ap, ◌∙◌}
use mathlib.Core.Bool.{Bool, true, false, ◌&&◌}
use mathlib.Core.Logic.{◌⊎◌, inl, inr}
use mathlib.Core.List.{List, [], ◌∷◌}
use native.Mathlib.Omega.{arith}
use tufan_aks.Base.Int.{ℤ, pos, negsuc, pos_part, neg_part}
use tufan_aks.Base.Lists.{length}
use tufan_aks.Base.Tests.{ltb, ◌==◌, Bool-cases}

abbrev pub codes : String → List ℕ
codes String.[] = []
codes (String.◌∷◌ c s) = code c ∷ codes s

-- strcmp of two texts is 0
abbrev pub eqb_text : List ℕ → List ℕ → Bool
eqb_text [] [] = true
eqb_text [] (y ∷ ys) = false
eqb_text (x ∷ xs) [] = false
eqb_text (x ∷ xs) (y ∷ ys) = x == y && eqb_text xs ys

-- The digits of n before `out`, with the number of divisions left.
pub digits : ℕ → ℕ → List ℕ → List ℕ
digits zero n out = out
digits (suc rounds) n out = elim (ltb n 10) [
  | true ↦ (b'0' + n) ∷ out
  | false ↦ digits rounds (n / 10) ((b'0' + n % 10) ∷ out)
]

pub print_unsigned : ℕ → List ℕ
print_unsigned n = digits (n + 1) n []

pub print_signed : ℤ → List ℕ
print_signed (pos n) = print_unsigned n
print_signed (negsuc n) = b'-' ∷ print_unsigned (n + 1)

-- The number that digits after the number n make.
abbrev pub read_digits : List ℕ → ℕ → ℕ
read_digits [] n = n
read_digits (c ∷ s) n = read_digits s (n * 10 + (c - b'0'))

abbrev pub power_10 : ℕ → ℕ
power_10 zero = 1
power_10 (suc k) = 10 * power_10 k

digits_last :
    (rounds n : ℕ) (out : List ℕ) → ltb n 10 ≡ true → digits (suc rounds) n out ≡ (b'0' + n) ∷ out
unfolding digits
digits_last rounds n out e = rw (e, digits) refl

digits_more :
    (rounds n : ℕ) (out : List ℕ)
    → ltb n 10 ≡ false
    → digits (suc rounds) n out ≡ digits rounds (n / 10) ((b'0' + n % 10) ∷ out)
unfolding digits
digits_more rounds n out e = rw (e, digits) refl

read-digits :
    (rounds n : ℕ) (out : List ℕ)
    → n < rounds
    → read_digits (digits rounds n out) 0 ≡ read_digits out n
read-digits zero n out h = absurd (omega arith)
read-digits (suc rounds) n out h =
    by_size (Bool-cases (ltb n 10))
      (λ le. read-digits rounds (n / 10) ((b'0' + n % 10) ∷ out) (omega arith))
  where
    by_size :
        (ltb n 10 ≡ true) ⊎ (ltb n 10 ≡ false)
        → (10 ≤ n
            → read_digits (digits rounds (n / 10) ((b'0' + n % 10) ∷ out)) 0
              ≡ read_digits ((b'0' + n % 10) ∷ out) (n / 10))
        → read_digits (digits (suc rounds) n out) 0 ≡ read_digits out n
    by_size (inl e) later =
        rw (digits_last rounds n out e)
          (ap (read_digits out) (let v : 0 * 10 + (b'0' + n - b'0') ≡ n = omega arith in v))
    by_size (inr e) later = rw (digits_more rounds n out e) (
        later (ground arith)
        ∙ ap (read_digits out)
            (let v : n / 10 * 10 + (b'0' + n % 10 - b'0') ≡ n = omega arith in v))

-- What is printed is read back, so the divisions never run out.
pub read-print : (n : ℕ) → read_digits (print_unsigned n) 0 ≡ n
unfolding print_unsigned
read-print n = read-digits (n + 1) n [] (omega arith)

length-digits :
    (rounds k n : ℕ) (out : List ℕ)
    → n < 10 * power_10 k
    → length (digits rounds n out) ≤ suc k + length out
unfolding digits
length-digits zero k n out h = omega arith
length-digits (suc rounds) zero n out h = rw (digits_last rounds n out (ground arith)) (omega arith)
length-digits (suc rounds) (suc k) n out h =
    by_size (Bool-cases (ltb n 10))
      (length-digits rounds k (n / 10) ((b'0' + n % 10) ∷ out) (omega arith))
  where
    by_size :
        (ltb n 10 ≡ true) ⊎ (ltb n 10 ≡ false)
        → length (digits rounds (n / 10) ((b'0' + n % 10) ∷ out)) ≤ suc k + suc (length out)
        → length (digits (suc rounds) n out) ≤ suc (suc k) + length out
    by_size (inl e) later = rw (digits_last rounds n out e) (omega arith)
    by_size (inr e) later = rw (digits_more rounds n out e) (omega (arith, later))

-- A number below 10^(k + 1) has at most k + 1 digits.
pub length-print : (k n : ℕ) → n < 10 * power_10 k → length (print_unsigned n) ≤ suc k
unfolding print_unsigned
length-print k n h = omega (arith, length-digits (n + 1) k n [] h)

-- An integer of at most k + 1 digits, and its sign.
pub length-print_signed :
    (k : ℕ) (z : ℤ)
    → pos_part z < 10 * power_10 k
    → neg_part z < 10 * power_10 k
    → length (print_signed z) ≤ suc (suc k)
unfolding print_signed
length-print_signed k (pos n) h g = omega (arith, length-print k n h)
length-print_signed k (negsuc n) h g = omega (arith, length-print k (n + 1) (omega arith))
