-- ===== src/Buffer/Refine.antt =====
-- The ring of ESP_AKS/lib/OfflineBuffer/OfflineBuffer.cpp as a queue of at most 75 samples that drops
-- its oldest one when it is full.
use tufan_aks.Base.{
  ℕ, zero, suc, ◌+◌, ◌-◌, ◌%◌, ◌≡◌, refl, ◌≤◌, ◌<◌, ◌∙◌, ap, ap₂, sym, arith, true, false,
  if◌then◌else◌, ◌==◌, List, [], ◌∷◌, ◌++◌, get_or, set, length, length-set, get_or-set_self,
  get_or-set_ne, drop, length-append, none, some, ◌⊎◌, inl, inr, subst,
}
use tufan_aks.Data.{TelemetryData, zero_telemetry}
use tufan_aks.Buffer.{
  Ring, new_ring, ob_push, make_room, store, ob_pop, ob_peek, ob_drop_front, ob_is_empty, ob_count,
  ob_capacity,
}

-- n samples from the position h on, the oldest first.
abbrev window : List TelemetryData → ℕ → ℕ → List TelemetryData
window buf h zero = []
window buf h (suc n) = get_or buf h zero_telemetry ∷ window buf ((h + 1) % 75) n

abbrev pub contents : Ring → List TelemetryData
contents r = window r.buf r.head r.count

abbrev pub IsRing : Ring → Type 0
IsRing r = (length r.buf ≡ 75) × (r.head < 75) × (r.count ≤ 75) × (r.tail ≡ (r.head + r.count) % 75)

length-window : (buf : List TelemetryData) (h n : ℕ) → length (window buf h n) ≡ n
length-window buf h zero = refl
length-window buf h (suc n) = ap suc (length-window buf ((h + 1) % 75) n)

window-set :
    (buf : List TelemetryData) (h n : ℕ) (x : TelemetryData)
    → length buf ≡ 75
    → h < 75
    → n < 75
    → window (set buf ((h + n) % 75) x) h (suc n) ≡ window buf h n ++ (x ∷ [])
window-set buf h zero x hb hh hn =
    let e : (h + 0) % 75 ≡ h = omega arith in
    ap (λ i. get_or (set buf i x) h zero_telemetry ∷ []) e
    ∙ ap (λ v. v ∷ []) (get_or-set_self buf h x zero_telemetry (omega arith))
window-set buf h (suc n) x hb hh hn =
    let e : (h + suc n) % 75 ≡ ((h + 1) % 75 + n) % 75 = omega arith in
    ap₂ (λ v rest. v ∷ rest)
      (get_or-set_ne buf {i = (h + suc n) % 75} {j = h} x zero_telemetry (λ c. omega arith))
      (ap (λ i. window (set buf i x) ((h + 1) % 75) (suc n)) e
        ∙ window-set buf ((h + 1) % 75) n x hb (omega arith) (omega arith))

store-contents :
    (x : TelemetryData) (r : Ring)
    → IsRing r
    → r.count < 75
    → (contents (store x r) ≡ contents r ++ (x ∷ [])) × IsRing (store x r)
unfolding store
store-contents x r (hb, hh, hc, ht) lt =
    let e : r.count + 1 ≡ suc r.count = omega arith in
    (
      ap₂ (λ i n. window (set r.buf i x) r.head n) ht e
          ∙ window-set r.buf r.head r.count x hb hh lt,
      (length-set r.buf r.tail x ∙ hb, hh, omega arith, omega arith),
    )

-- The queue's view of a push.
abbrev pub enqueue : TelemetryData → List TelemetryData → List TelemetryData
enqueue x q = (if length q == 75 then drop 1 q else q) ++ (x ∷ [])

-- The ring without its oldest sample.
abbrev dropped : Ring → Ring
dropped r = record r { head = (r.head + 1) % ob_capacity; count = r.count - 1 }

dropped-contents :
    (r : Ring)
    → IsRing r
    → 0 < r.count
    → (contents r ≡ get_or r.buf r.head zero_telemetry ∷ contents (dropped r)) × IsRing (dropped r)
dropped-contents r (hb, hh, hc, ht) h0 =
    (ap (window r.buf r.head) (suc_pred h0), (hb, omega arith, omega arith, omega arith))
  where
    suc_pred : {n : ℕ} → 0 < n → n ≡ suc (n - 1)
    suc_pred h = omega arith

make_room_full : (r : Ring) → r.count ≡ 75 → make_room r ≡ dropped r
unfolding make_room
make_room_full r e = ground arith

make_room_free : (r : Ring) → r.count < 75 → make_room r ≡ r
unfolding make_room
make_room_free r e = ground arith

abbrev HasRoom : Ring → Ring → Type 0
HasRoom r s =
    (contents s ≡ (if length (contents r) == 75 then drop 1 (contents r) else contents r))
    × IsRing s
    × (s.count < 75)

full_or_free : (r : Ring) → IsRing r → (r.count ≡ 75) ⊎ (r.count < 75)
full_or_free r (hb, hh, hc, ht) = ground arith

make_room-contents : (r : Ring) → IsRing r → HasRoom r (make_room r)
make_room-contents r wf = by_count (full_or_free r wf)
  where
    n : length (contents r) ≡ r.count
    n = length-window r.buf r.head r.count

    keep : (q : List TelemetryData) → length q < 75 → q ≡ (if length q == 75 then drop 1 q else q)
    keep q h = ground arith

    lose :
        (q : List TelemetryData)
        → length q ≡ 75
        → drop 1 q ≡ (if length q == 75 then drop 1 q else q)
    lose q h = ground arith

    by_count : (r.count ≡ 75) ⊎ (r.count < 75) → HasRoom r (make_room r)
    by_count (inl e) =
        let d = dropped-contents r wf (omega arith) in
        subst (HasRoom r) (sym (make_room_full r e))
          (ap (drop 1) (sym d.0) ∙ lose (contents r) (n ∙ e), d.1, omega arith)
    by_count (inr l) =
        subst (HasRoom r) (sym (make_room_free r l)) (keep (contents r) (omega (arith, n)), wf, l)

-- On a well-formed ring, a push appends its sample to the queue of the samples held, after dropping
-- the oldest one if 75 are held, and leaves a well-formed ring.
pub push-contents :
    (x : TelemetryData) (r : Ring)
    → IsRing r
    → (contents (ob_push x r) ≡ enqueue x (contents r)) × IsRing (ob_push x r)
unfolding ob_push
push-contents x r wf =
    let m = make_room-contents r wf in
    let s = store-contents x (make_room r) m.1 m.2 in (s.0 ∙ ap (λ q. q ++ (x ∷ [])) m.0, s.1)

-- What the operations at the front of the ring see of its queue.
abbrev pub QueueView : Ring → Type 0
QueueView r =
    ((contents r ≡ [])
      × (ob_is_empty r ≡ true)
      × (ob_peek r ≡ none)
      × (ob_pop r ≡ (none, r))
      × (ob_drop_front r ≡ (false, r)))
    ⊎ ((x : TelemetryData) × (s : Ring) × (contents r ≡ x ∷ contents s)
        × IsRing s
        × (ob_is_empty r ≡ false)
        × (ob_peek r ≡ some x)
        × (ob_pop r ≡ (some x, s))
        × (ob_drop_front r ≡ (true, s)))

-- On a well-formed ring: the count is the length of the queue of the samples held, and the emptiness
-- test, a read, a pop and a drop agree on it: on an empty queue they report so and leave the ring
-- as it was; on a queue x ∷ q they give x, and pop and drop both leave the same well-formed ring, that
-- holds q.
pub front_agrees : (r : Ring) → IsRing r → (ob_count r ≡ length (contents r)) × QueueView r
unfolding ob_count ob_is_empty ob_peek ob_pop ob_drop_front
front_agrees r wf = (sym (length-window r.buf r.head r.count), by_count (empty_or_not r))
  where
    empty_or_not : (r : Ring) → (r.count ≡ 0) ⊎ (0 < r.count)
    empty_or_not r = ground arith

    by_count : (r.count ≡ 0) ⊎ (0 < r.count) → QueueView r
    by_count (inl e) =
        inl (ap (window r.buf r.head) e, ground arith, ground arith, ground arith, ground arith)
    by_count (inr l) =
        let d = dropped-contents r wf l in
        inr (
          get_or r.buf r.head zero_telemetry,
          dropped r,
          d.0,
          d.1,
          ground arith,
          ground arith,
          ground arith,
          ground arith,
        )

pub push_all : List TelemetryData → Ring → Ring
push_all [] r = r
push_all (x ∷ xs) r = push_all xs (ob_push x r)

append_nil : (q : List TelemetryData) → q ++ [] ≡ q
append_nil [] = refl
append_nil (x ∷ q) = ap (λ t. x ∷ t) (append_nil q)

append_assoc : (p q r : List TelemetryData) → (p ++ q) ++ r ≡ p ++ (q ++ r)
append_assoc [] q r = refl
append_assoc (x ∷ p) q r = ap (λ t. x ∷ t) (append_assoc p q r)

-- The last 75 of a sequence of samples.
abbrev pub newest : List TelemetryData → List TelemetryData
newest q = drop (length q - 75) q

newest-cons :
    (y : TelemetryData) (t : List TelemetryData) → 75 ≤ length t → newest t ≡ newest (y ∷ t)
newest-cons y t h =
    let e : suc (length t - 75) ≡ suc (length t) - 75 = omega arith in ap (λ n. drop n (y ∷ t)) e

newest-enqueue :
    (x : TelemetryData) (q xs : List TelemetryData)
    → length q ≤ 75
    → newest (enqueue x q ++ xs) ≡ newest (q ++ (x ∷ xs))
newest-enqueue x [] xs h = refl
newest-enqueue x (y ∷ q) xs h = by_length full_or_not
  where
    full_or_not : (length q ≡ 74) ⊎ (length q < 74)
    full_or_not = ground arith

    by_length :
        (length q ≡ 74) ⊎ (length q < 74)
        → newest (enqueue x (y ∷ q) ++ xs) ≡ newest ((y ∷ q) ++ (x ∷ xs))
    by_length (inl e) =
        let full : enqueue x (y ∷ q) ≡ q ++ (x ∷ []) = ground arith in
        ap (λ t. newest (t ++ xs)) full
        ∙ ap newest (append_assoc q (x ∷ []) xs)
        ∙ newest-cons y (q ++ (x ∷ xs)) (omega (arith, e, length-append q (x ∷ xs)))
    by_length (inr l) =
        let free : enqueue x (y ∷ q) ≡ y ∷ (q ++ (x ∷ [])) = ground arith in
        ap (λ t. newest (t ++ xs)) free ∙ ap (λ t. newest (y ∷ t)) (append_assoc q (x ∷ []) xs)

newest-contents : (r : Ring) → IsRing r → newest (contents r) ≡ contents r
newest-contents r wf =
    let e : length (contents r) - 75 ≡ 0 =
      omega (arith, length-window r.buf r.head r.count, wf.2) in
    ap (λ n. drop n (contents r)) e

-- Pushing a sequence of samples on a well-formed ring leaves the newest 75 of the samples held
-- followed by the samples pushed, in order, and a well-formed ring.
pub push_all-newest :
    (xs : List TelemetryData) (r : Ring)
    → IsRing r
    → (contents (push_all xs r) ≡ newest (contents r ++ xs)) × IsRing (push_all xs r)
unfolding push_all
push_all-newest [] r wf = (sym (ap newest (append_nil (contents r)) ∙ newest-contents r wf), wf)
push_all-newest (x ∷ xs) r wf =
    let p = push-contents x r wf in
    let ih = push_all-newest xs (ob_push x r) p.1 in
    (
      ih.0
          ∙ ap (λ q. newest (q ++ xs)) p.0
          ∙ newest-enqueue x (contents r) xs
              (omega (arith, length-window r.buf r.head r.count, wf.2)),
      ih.1,
    )

pub new_ring-IsRing : IsRing new_ring
new_ring-IsRing = (refl, omega arith, omega arith, refl)
