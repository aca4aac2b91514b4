-- ===== src/Display/Touch.antt =====
-- The frames of the touch buttons: the parser in `readTouchCommand` of ESP_AKS/lib/DisplayHMI/DisplayHMI.cpp.
use tufan_aks.Base.{
  ℕ, ◌-◌, ◌==◌, ◌≡◌, ◌≢◌, ◌<◌, refl, sym, ap, ◌∙◌, arith, Bool, true, false, ◌||◌, not,
  if◌then◌else◌, List, [], ◌∷◌, ◌++◌, Option, none, some, ◌⊎◌, inl, inr,
}
use tufan_aks.Display.{
  Display, TouchRx, RxState, wait_header, wait_command, wait_checksum, take_byte, touch_byte,
  touch_bytes, read_touch_command,
}

-- [HEADER] [COMMAND] [CHECKSUM]
abbrev pub touch_frame : ℕ → List ℕ
touch_frame c = 0x5A ∷ c ∷ (255 - c) ∷ []

touch_noise :
    (b : ℕ) (t : TouchRx)
    → (b ≡ 0xFF) ⊎ (b ≡ 0)
    → touch_byte b t ≡ (none, record t { rx_state = wait_header })
unfolding touch_byte
touch_noise b t (inl e) = rw e refl
touch_noise b t (inr e) = rw e refl

touch_plain : (b : ℕ) (t : TouchRx) → b ≢ 0xFF → b ≢ 0 → touch_byte b t ≡ take_byte t.rx_state b t
unfolding touch_byte
touch_plain b t h g = ground (arith, h, g)

bytes_on :
    (b : ℕ) (bs : List ℕ) (t t' : TouchRx)
    → touch_byte b t ≡ (none, t')
    → touch_bytes (b ∷ bs) t ≡ touch_bytes bs t'
unfolding touch_bytes
bytes_on b bs t t' e =
    let first : (touch_byte b t).0 ≡ none = ap (λ r. r.0) e in
    rw (first, touch_bytes) (ap (λ r. touch_bytes bs (r.1)) e)

bytes_done :
    (b : ℕ) (bs : List ℕ) (t t' : TouchRx) (c : ℕ)
    → touch_byte b t ≡ (some c, t')
    → touch_bytes (b ∷ bs) t ≡ (some c, t', bs)
unfolding touch_bytes
bytes_done b bs t t' c e =
    let first : (touch_byte b t).0 ≡ some c = ap (λ r. r.0) e in
    rw (first, touch_bytes) (ap (λ r. (some c, r.1, bs)) e)

abbrev at : RxState → ℕ → TouchRx
at state pending = record { rx_state = state; pending_cmd = pending }

-- The three bytes of a frame, from the first state.
take_header : (p : ℕ) → touch_byte 0x5A (at wait_header p) ≡ (none, at wait_command p)
unfolding touch_byte take_byte
take_header p = refl

take_command :
    (p c : ℕ) → 0 < c → c < 255 → touch_byte c (at wait_command p) ≡ (none, at wait_checksum c)
unfolding take_byte
take_command p c l h = touch_plain c (at wait_command p) (λ e. omega arith) (λ e. omega arith)

take_checksum :
    (c : ℕ)
    → 0 < c
    → c < 255
    → touch_byte (255 - c) (at wait_checksum c) ≡ (some c, at wait_header c)
unfolding take_byte
take_checksum c l h =
    touch_plain (255 - c) (at wait_checksum c) (λ e. omega arith) (λ e. omega arith)
    ∙ ap (λ (o : Option ℕ). (o, at wait_header c)) same
  where
    same : (if (255 - c) == 255 - c then some c else none) ≡ some c
    same = ground arith

-- A frame behind a byte of noise is recognised, whatever was received before.
pub frame-recognised :
    (d : Display) (t : TouchRx) (noise c : ℕ) (rest : List ℕ)
    → d.is_initialized ≡ true
    → (noise ≡ 0xFF) ⊎ (noise ≡ 0)
    → 0 < c
    → c < 255
    → read_touch_command d (noise ∷ (touch_frame c ++ rest)) t ≡ (some c, at wait_header c, rest)
unfolding read_touch_command
frame-recognised d t noise c rest i n l h =
    let p = t.pending_cmd in
    rw i (
      bytes_on noise (touch_frame c ++ rest) t (at wait_header p) (touch_noise noise t n)
      ∙ bytes_on 0x5A (c ∷ (255 - c) ∷ rest) (at wait_header p) (at wait_command p) (take_header p)
      ∙ bytes_on c ((255 - c) ∷ rest) (at wait_command p) (at wait_checksum c)
          (take_command p c l h)
      ∙ bytes_done (255 - c) rest (at wait_checksum c) (at wait_header c) c (take_checksum c l h))

-- The bytes of a frame that the state stands for.
abbrev pub begun : TouchRx → List ℕ
begun t = elim t.rx_state [
  | wait_header ↦ []
  | wait_command ↦ 0x5A ∷ []
  | wait_checksum ↦ 0x5A ∷ t.pending_cmd ∷ []
]

append_nil : (q : List ℕ) → q ≡ q ++ []
append_nil [] = refl
append_nil (x ∷ q) = ap (λ t. x ∷ t) (append_nil q)

append_assoc : (p q r : List ℕ) → (p ++ q) ++ r ≡ p ++ (q ++ r)
append_assoc [] q r = refl
append_assoc (x ∷ p) q r = ap (λ t. x ∷ t) (append_assoc p q r)

append_one : (p : List ℕ) (b : ℕ) (bs : List ℕ) → p ++ (b ∷ bs) ≡ (p ++ (b ∷ [])) ++ bs
append_one [] b bs = refl
append_one (x ∷ p) b bs = ap (λ t. x ∷ t) (append_one p b bs)

none-some : {c : ℕ} → none ≢ some c
none-some h = cc

-- What a byte leaves of the frame begun: a part of what was received, or a whole frame.
Left : TouchRx → ℕ → Option ℕ × TouchRx → Type 0
Left t b (none, t') = (extra : List ℕ) × (begun t ++ (b ∷ []) ≡ extra ++ begun t')
Left t b (some c, t') = begun t ++ (b ∷ []) ≡ touch_frame c

plain-Left : (state : RxState) (p b : ℕ) → Left (at state p) b (take_byte state b (at state p))
unfolding take_byte Left
plain-Left wait_header p b = by_header (b == 0x5A) refl
  where
    by_header :
        (same : Bool)
        → b == 0x5A ≡ same
        → (extra : List ℕ) × (b ∷ []
            ≡ extra ++ begun (if same then at wait_command p else at wait_header p))
    by_header true e = ([], ap (λ x. x ∷ []) (ground arith))
    by_header false e = (b ∷ [], refl)
plain-Left wait_command p b = ([], refl)
plain-Left wait_checksum p b = by_checksum (b == 255 - p) refl
  where
    by_checksum :
        (same : Bool)
        → b == 255 - p ≡ same
        → Left (at wait_checksum p) b (if same then some p else none, at wait_header p)
    by_checksum true e = ap (λ x. 0x5A ∷ p ∷ x ∷ []) (ground arith)
    by_checksum false e = (0x5A ∷ p ∷ b ∷ [], refl)

byte-Left : (b : ℕ) (t : TouchRx) → Left t b (touch_byte b t)
unfolding touch_byte Left
byte-Left b t = by_noise ((b == 0xFF) || (b == 0x00))
  where
    by_noise :
        (noise : Bool)
        → Left t b
            (if noise then (none, at wait_header t.pending_cmd) else take_byte t.rx_state b t)
    by_noise true = (begun t ++ (b ∷ []), append_nil (begun t ++ (b ∷ [])))
    by_noise false = plain-Left t.rx_state t.pending_cmd b

abbrev frame_or : Option ℕ → List ℕ
frame_or none = []
frame_or (some c) = touch_frame c

-- A command that is reported ends a whole frame, of which what is begun is a part.
frame_of :
    (bs : List ℕ) (t t' : TouchRx) (c : ℕ) (rest : List ℕ)
    → touch_bytes bs t ≡ (some c, t', rest)
    → (before : List ℕ) × (begun t ++ bs ≡ before ++ (touch_frame c ++ rest))
unfolding touch_bytes Left
frame_of [] t t' c rest h = absurd (none-some (ap (λ r. r.0) h))
frame_of (b ∷ bs) t t' c rest h =
    by_byte (touch_byte b t) refl (byte-Left b t) (λ u e. frame_of bs u t' c rest e)
  where
    by_byte :
        (r : Option ℕ × TouchRx)
        → touch_byte b t ≡ r
        → Left t b r
        → ((u : TouchRx)
            → touch_bytes bs u ≡ (some c, t', rest)
            → (before : List ℕ) × (begun u ++ bs ≡ before ++ (touch_frame c ++ rest)))
        → (before : List ℕ) × (begun t ++ (b ∷ bs) ≡ before ++ (touch_frame c ++ rest))
    by_byte (none, u) e (extra, g) later =
        let (before, k) = later u (sym (bytes_on b bs t u e) ∙ h) in
        (
          extra ++ before,
          append_one (begun t) b bs
              ∙ ap (λ l. l ++ bs) g
              ∙ append_assoc extra (begun u) bs
              ∙ ap (λ l. extra ++ l) k
              ∙ sym (append_assoc extra before (touch_frame c ++ rest)),
        )
    by_byte (some k, u) e g later =
        let same = sym (bytes_done b bs t u k e) ∙ h in
        ([], append_one (begun t) b bs ∙ ap (λ l. l ++ bs) g ∙ ap (λ q. frame_or (q.0) ++ q.2) same)

-- A command is reported only for a whole frame. If the reader reports command c, whatever its state was, then
-- the part of a frame that it had begun, followed by the bytes received, is: some bytes, the frame of
-- c (the header 0x5A, c, and the complement of c), and the bytes that are left for the next call.
pub command-frame :
    (d : Display) (received : List ℕ) (t t' : TouchRx) (c : ℕ) (rest : List ℕ)
    → read_touch_command d received t ≡ (some c, t', rest)
    → (before : List ℕ) × (begun t ++ received ≡ before ++ (touch_frame c ++ rest))
unfolding read_touch_command
command-frame d received t t' c rest h = by_init d.is_initialized h
  where
    by_init :
        (ready : Bool)
        → ◌≡◌ {A = Option ℕ × TouchRx × List ℕ}
            (if not ready then (none, t, received) else touch_bytes received t)
            (some c, t', rest)
        → (before : List ℕ) × (begun t ++ received ≡ before ++ (touch_frame c ++ rest))
    by_init true e = frame_of received t t' c rest e
    by_init false e = absurd (none-some (ap (λ r. r.0) e))
