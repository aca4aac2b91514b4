-- ===== src/Replay/Lines.antt =====
-- parseLine of tools/can_replay/can_replay.cpp against the description of a well-formed line.
use tufan_aks.Base.{
  ℕ, ◌-◌, ◌%◌, ◌==◌, leb, ◌≤◌, ◌<◌, ◌≡◌, ◌↔◌, ==_iff, refl, sym, ◌∙◌, ap, arith, ◌⊎◌, inl, inr, not,
  Bool, true, false, Bool-cases, Option-cases, if◌then◌else◌, none, some, List, [], ◌∷◌, ◌++◌, map,
  length, replicate,
}
use mathlib.Core.Sum.{inl-ne-inr, inr-injective}
use tufan_aks.Base.Decimal.{codes, eqb_text}
use tufan_aks.Base.Int.{ℤ, pos, negsuc}
use tufan_aks.Replay.{
  Frame, LineError, read_format, read_dlc, read_bytes, parse_bytes, parse_fields, parse_line,
  unknown_format, invalid_dlc, too_many_bytes, wrong_byte_count, wrong_field_count,
}
use tufan_aks.Replay.Text.{trim, split, tokens, strtoul_16, strtol_10}
use tufan_aks.Replay.Clean.{format, frame_of, WellFormed}

eqb_text-eq : (s t : List ℕ) → eqb_text s t ≡ true → s ≡ t
eqb_text-eq [] [] h = refl
eqb_text-eq [] (y ∷ t) h = absurd (ground arith)
eqb_text-eq (x ∷ s) [] h = absurd (ground arith)
eqb_text-eq (x ∷ s) (y ∷ t) h = grind (arith, eqb_text-eq s t)

read_format-some : (s : List ℕ) (b : Bool) → read_format s ≡ some b → s ≡ format b
read_format-some s true h = eqb_text-eq s (codes "EXT") (ground arith)
read_format-some s false h = eqb_text-eq s (codes "STD") (ground arith)

read_dlc-some : (z : ℤ) (n : ℕ) → read_dlc z ≡ some n → (z ≡ pos n) × (n ≤ 8)
read_dlc-some (pos m) n h = ground arith
read_dlc-some (negsuc m) n h = absurd (ground arith)

abbrev stored : List (List ℕ) → List ℕ
stored ts = map (λ t. strtoul_16 t % 256) ts ++ replicate (8 - length ts) 0

read_bytes-few :
    (ts : List (List ℕ))
    → length ts ≤ 8
    → read_bytes ts 0 (replicate 8 0) ≡ some (length ts, stored ts)
unfolding read_bytes
read_bytes-few [] h = refl
read_bytes-few (a ∷ []) h = refl
read_bytes-few (a ∷ b ∷ []) h = refl
read_bytes-few (a ∷ b ∷ c ∷ []) h = refl
read_bytes-few (a ∷ b ∷ c ∷ d ∷ []) h = refl
read_bytes-few (a ∷ b ∷ c ∷ d ∷ e ∷ []) h = refl
read_bytes-few (a ∷ b ∷ c ∷ d ∷ e ∷ f ∷ []) h = refl
read_bytes-few (a ∷ b ∷ c ∷ d ∷ e ∷ f ∷ g ∷ []) h = refl
read_bytes-few (a ∷ b ∷ c ∷ d ∷ e ∷ f ∷ g ∷ i ∷ []) h = refl
read_bytes-few (a ∷ b ∷ c ∷ d ∷ e ∷ f ∷ g ∷ i ∷ j ∷ ts) h = absurd (omega arith)

read_bytes-many : (ts : List (List ℕ)) → 8 < length ts → read_bytes ts 0 (replicate 8 0) ≡ none
unfolding read_bytes
read_bytes-many [] h = absurd (omega arith)
read_bytes-many (a ∷ []) h = absurd (omega arith)
read_bytes-many (a ∷ b ∷ []) h = absurd (omega arith)
read_bytes-many (a ∷ b ∷ c ∷ []) h = absurd (omega arith)
read_bytes-many (a ∷ b ∷ c ∷ d ∷ []) h = absurd (omega arith)
read_bytes-many (a ∷ b ∷ c ∷ d ∷ e ∷ []) h = absurd (omega arith)
read_bytes-many (a ∷ b ∷ c ∷ d ∷ e ∷ f ∷ []) h = absurd (omega arith)
read_bytes-many (a ∷ b ∷ c ∷ d ∷ e ∷ f ∷ g ∷ []) h = absurd (omega arith)
read_bytes-many (a ∷ b ∷ c ∷ d ∷ e ∷ f ∷ g ∷ i ∷ []) h = absurd (omega arith)
read_bytes-many (a ∷ b ∷ c ∷ d ∷ e ∷ f ∷ g ∷ i ∷ j ∷ ts) h = refl

module _ (is_ext : Bool) (id dlc n : ℕ) (hex : List ℕ) where
  parse_bytes-few :
      length (tokens hex) ≤ 8
      → (length (tokens hex) == dlc) ≡ true
      → parse_bytes is_ext id dlc n hex ≡ inr (frame_of is_ext id (tokens hex) n)
  unfolding parse_bytes
  parse_bytes-few h e =
      let d : length (tokens hex) ≡ dlc = ground arith in
      rw (read_bytes-few (tokens hex) h, e, parse_bytes) (ap with_dlc (sym d))
    where
      with_dlc : ℕ → LineError ⊎ Frame
      with_dlc k = inr (record (frame_of is_ext id (tokens hex) n) {
        msg = record (frame_of is_ext id (tokens hex) n).msg { data_length_code = k };
      })

  parse_bytes-wrong :
      length (tokens hex) ≤ 8
      → (length (tokens hex) == dlc) ≡ false
      → parse_bytes is_ext id dlc n hex ≡ inl (wrong_byte_count dlc (length (tokens hex)))
  unfolding parse_bytes
  parse_bytes-wrong h e = rw (read_bytes-few (tokens hex) h, e, parse_bytes) refl

  parse_bytes-many : 8 < length (tokens hex) → parse_bytes is_ext id dlc n hex ≡ inl too_many_bytes
  unfolding parse_bytes
  parse_bytes-many h = rw (read_bytes-many (tokens hex) h, parse_bytes) refl

  -- The bytes that are accepted.
  parse_bytes-frame :
      (f : Frame)
      → parse_bytes is_ext id dlc n hex ≡ inr f
      → (length (tokens hex) ≤ 8)
        × (length (tokens hex) ≡ dlc)
        × (f ≡ frame_of is_ext id (tokens hex) n)
  parse_bytes-frame f h = elim (Bool-cases (leb (length (tokens hex)) 8)) [
    | inl few ↦
        let le : length (tokens hex) ≤ 8 = ground arith in
        elim (Bool-cases (length (tokens hex) == dlc)) [
          | inl e ↦ (le, ground arith, inr-injective _ _ (sym h ∙ parse_bytes-few le e))
          | inr e ↦ absurd (inl-ne-inr (sym (parse_bytes-wrong le e) ∙ h))
        ]
    | inr many ↦ absurd (inl-ne-inr (sym (parse_bytes-many (ground arith)) ∙ h))
  ]

module _ (a b c d : List ℕ) (n : ℕ) where
  parse_fields-bytes :
      (is_ext : Bool) (dlc : ℕ)
      → read_format a ≡ some is_ext
      → read_dlc (strtol_10 c) ≡ some dlc
      → parse_fields (a ∷ b ∷ c ∷ d ∷ []) n ≡ parse_bytes is_ext (strtoul_16 b % 4294967296) dlc n d
  unfolding parse_fields
  parse_fields-bytes is_ext dlc e f = rw (e, f, parse_fields) refl

  parse_fields-format :
      read_format a ≡ none → parse_fields (a ∷ b ∷ c ∷ d ∷ []) n ≡ inl (unknown_format a)
  unfolding parse_fields
  parse_fields-format e = rw (e, parse_fields) refl

  parse_fields-dlc :
      (is_ext : Bool)
      → read_format a ≡ some is_ext
      → read_dlc (strtol_10 c) ≡ none
      → parse_fields (a ∷ b ∷ c ∷ d ∷ []) n ≡ inl (invalid_dlc c)
  unfolding parse_fields
  parse_fields-dlc is_ext e f = rw (e, f, parse_fields) refl

  -- The four fields that are accepted.
  parse_fields-frame :
      (f : Frame)
      → parse_fields (a ∷ b ∷ c ∷ d ∷ []) n ≡ inr f
      → (is_ext : Bool) × (a ≡ format is_ext)
        × (strtol_10 c ≡ pos (length (tokens d)))
        × (length (tokens d) ≤ 8)
        × (f ≡ frame_of is_ext (strtoul_16 b % 4294967296) (tokens d) n)
  parse_fields-frame f h = elim (Option-cases (read_format a)) [
    | inl e ↦ absurd (inl-ne-inr (sym (parse_fields-format e) ∙ h))
    | inr (is_ext, e) ↦ elim (Option-cases (read_dlc (strtol_10 c))) [
      | inl g ↦ absurd (inl-ne-inr (sym (parse_fields-dlc is_ext e g) ∙ h))
      | inr (dlc, g) ↦
          let (le, l, k) =
            parse_bytes-frame is_ext (strtoul_16 b % 4294967296) dlc n d f
              (sym (parse_fields-bytes is_ext dlc e g) ∙ h) in
          (
            is_ext,
            read_format-some a is_ext e,
            (read_dlc-some (strtol_10 c) dlc g).0 ∙ ap pos (sym l),
            le,
            k,
          )
    ]
  ]

format_read : (b : Bool) → read_format (format b) ≡ some b
format_read true = refl
format_read false = refl

dlc_read : (n : ℕ) → n ≤ 8 → read_dlc (pos n) ≡ some n
dlc_read n h = ground arith

abbrev counted : List (List ℕ) → ℕ → LineError ⊎ Frame
counted parts n =
    if not (length parts == 4) then inl (wrong_field_count (length parts)) else parse_fields parts n

-- Exactly the lists of four fields are read on.
four_fields :
    (parts : List (List ℕ)) (n : ℕ) (f : Frame)
    → counted parts n ≡ inr f
    → (a b c d : List ℕ) × (parts ≡ a ∷ b ∷ c ∷ d ∷ [])
      × (parse_fields (a ∷ b ∷ c ∷ d ∷ []) n ≡ inr f)
four_fields [] n f h = absurd (inl-ne-inr h)
four_fields (a ∷ []) n f h = absurd (inl-ne-inr h)
four_fields (a ∷ b ∷ []) n f h = absurd (inl-ne-inr h)
four_fields (a ∷ b ∷ c ∷ []) n f h = absurd (inl-ne-inr h)
four_fields (a ∷ b ∷ c ∷ d ∷ []) n f h = (a, b, c, d, refl, h)
four_fields (a ∷ b ∷ c ∷ d ∷ e ∷ parts) n f h = absurd (
    let five : (length (a ∷ b ∷ c ∷ d ∷ e ∷ parts) == 4) ≡ false = ground arith in
    inl-ne-inr (
      sym (
        ap
          (λ q.
            if not q
            then inl (wrong_field_count (length (a ∷ b ∷ c ∷ d ∷ e ∷ parts)))
            else parse_fields (a ∷ b ∷ c ∷ d ∷ e ∷ parts) n)
          five)
      ∙ h))

-- The parser accepts exactly the well-formed lines, and gives their frames.
pub parse_line_iff :
    (line : List ℕ) (n : ℕ) (f : Frame) → (parse_line line n ≡ inr f) ↔ WellFormed line n f
unfolding parse_line WellFormed
parse_line_iff line n f = (accepted, parsed)
  where
    accepted : parse_line line n ≡ inr f → WellFormed line n f
    accepted h =
        let (a, b, c, d, e, p) = four_fields (map trim (split (λ c. c == b'|') line)) n f h in
        let (is_ext, k, l, le, g) = parse_fields-frame a b c d n f p in
        (is_ext, b, c, d, e ∙ ap (λ t. t ∷ b ∷ c ∷ d ∷ []) k, l, le, g)

    parsed : WellFormed line n f → parse_line line n ≡ inr f
    parsed (is_ext, b, c, d, e, l, le, g) =
        rw (e, parse_line)
          (parse_fields-bytes (format is_ext) b c d n is_ext (length (tokens d))
              (format_read is_ext) (ap read_dlc l ∙ dlc_read (length (tokens d)) le)
            ∙ parse_bytes-few is_ext (strtoul_16 b % 4294967296) (length (tokens d)) n d le
                ((==_iff (length (tokens d)) (length (tokens d))).1 refl)
            ∙ ap inr (sym g))
