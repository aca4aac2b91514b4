-- ===== src/Replay/Text.antt =====
-- What tools/can_replay/can_replay.cpp uses of the C++ library on text: the trimming of white space, the
-- parts between separators, and the numbers that strtoul and strtol read.
use tufan_aks.Base.{
  ℕ, ◌+◌, ◌-◌, ◌*◌, ◌%◌, ◌^◌, ◌==◌, leb, Bool, true, false, not, ◌&&◌, ◌||◌, if◌then◌else◌, Option,
  none, some, List, [], ◌∷◌,
}
use tufan_aks.Base.Int.{ℤ, pos, neg_ℕ}

-- The white space of `trim`: space, tab, carriage return, line feed.
abbrev pub is_blank : ℕ → Bool
is_blank c = c == b' ' || c == 9 || c == 13 || c == 10

-- The white space of the C locale, which adds the vertical tab and the form feed.
abbrev pub is_space : ℕ → Bool
is_space c = is_blank c || c == 11 || c == 12

abbrev pub drop_while : (ℕ → Bool) → List ℕ → List ℕ
drop_while p [] = []
drop_while p (c ∷ s) = if p c then drop_while p s else c ∷ s

abbrev pub before_blank : ℕ → List ℕ → List ℕ
before_blank c [] = if is_blank c then [] else c ∷ []
before_blank c (d ∷ s) = c ∷ d ∷ s

abbrev pub drop_end : List ℕ → List ℕ
drop_end [] = []
drop_end (c ∷ s) = before_blank c (drop_end s)

unfoldable pub trim : List ℕ → List ℕ
trim s = drop_end (drop_while is_blank s)

abbrev pub prepend : ℕ → List (List ℕ) → List (List ℕ)
prepend c [] = (c ∷ []) ∷ []
prepend c (part ∷ parts) = (c ∷ part) ∷ parts

-- The parts that repeated `getline` gives: after a last separator there is none.
unfoldable pub split : (ℕ → Bool) → List ℕ → List (List ℕ)
split p [] = []
split p (c ∷ s) = if p c then [] ∷ split p s else prepend c (split p s)

abbrev pub drop_empty : List (List ℕ) → List (List ℕ)
drop_empty [] = []
drop_empty ([] ∷ parts) = drop_empty parts
drop_empty ((c ∷ part) ∷ parts) = (c ∷ part) ∷ drop_empty parts

-- What repeated `>>` into a string reads.
unfoldable pub tokens : List ℕ → List (List ℕ)
tokens s = drop_empty (split is_space s)

abbrev pub in_range : ℕ → ℕ → ℕ → Bool
in_range low high c = leb low c && leb c high

abbrev pub hex_digit : ℕ → Option ℕ
hex_digit c =
    if in_range b'0' b'9' c
    then some (c - b'0')
    else if in_range b'A' b'F' c
    then some (c - b'A' + 10)
    else if in_range b'a' b'f' c
    then some (c - b'a' + 10)
    else none

abbrev pub dec_digit : ℕ → Option ℕ
dec_digit c = if in_range b'0' b'9' c then some (c - b'0') else none

-- The number that the digits at the front make, after the number n.
unfoldable pub read_number : (ℕ → Option ℕ) → ℕ → List ℕ → ℕ → ℕ
read_number digit base [] n = n
read_number digit base (c ∷ s) n = elim (digit c) [
  | none ↦ n
  | some d ↦ read_number digit base s (n * base + d)
]

-- A sign at the front, whether it is a minus, and what follows.
abbrev pub read_sign : List ℕ → Bool × List ℕ
read_sign [] = (false, [])
read_sign (c ∷ s) =
    if c == b'-' then (true, s) else if c == b'+' then (false, s) else (false, c ∷ s)

-- `0x` or `0X` at the front is passed over. If no digit follows, the number is 0 with it or without.
abbrev pub skip_prefix : List ℕ → List ℕ
skip_prefix [] = []
skip_prefix (c ∷ []) = c ∷ []
skip_prefix (c ∷ x ∷ s) = if c == b'0' && (x == b'x' || x == b'X') then s else c ∷ x ∷ s

-- `unsigned long` has 64 bits: a number beyond them gives the greatest one, and a minus sign wraps.
abbrev pub to_unsigned_long : Bool → ℕ → ℕ
to_unsigned_long minus v =
    if not (leb v (2 ^ 64 - 1)) then 2 ^ 64 - 1 else if minus then (2 ^ 64 - v) % 2 ^ 64 else v

unfoldable pub strtoul_16 : List ℕ → ℕ
strtoul_16 s =
    let signed = read_sign (drop_while is_space s) in
    to_unsigned_long signed.0 (read_number hex_digit 16 (skip_prefix signed.1) 0)

-- The limits of `long` are left out: a number beyond them is refused like the limit itself.
unfoldable pub strtol_10 : List ℕ → ℤ
strtol_10 s =
    let signed = read_sign (drop_while is_space s) in
    let v = read_number dec_digit 10 signed.1 0 in if signed.0 then neg_ℕ v else pos v
