-- ===== src/Nextion/Progress.antt =====
-- How a call of `buildBmsNextionCommands` brings the display closer to the data: the loops of
-- ESP_AKS/lib/BmsAlgo/BmsNextionPacket.cpp.
use tufan_aks.Base.{
  ℕ, suc, ◌+◌, ◌≡◌, ◌≤◌, ◌<◌, refl, ap, ap₂, ◌∙◌, arith, Bool, true, false, not, if◌then◌else◌,
  ◌==◌, List, [], ◌∷◌, ◌++◌, length, ◌⊎◌, inl, inr, All, length-append,
}
use tufan_aks.Base.Decimal.{codes, print_unsigned, length-print}
use tufan_aks.Nextion.{Sync, emit_and_check, sync_value, sync_cells, cell_command, summary_command}

-- 1 if the next command will be given out, since nothing has been yet.
abbrev pub gain : Sync → ℕ
gain s = if s.budget_exhausted then 0 else if s.current_bytes == 0 then 1 else 0

-- From s to s', what is out of date goes from a to b: nothing was, and nothing has happened; or it does not grow, and it
-- shrinks if nothing had been given out.
abbrev pub Progress : ℕ → ℕ → Sync → Sync → Type 0
Progress a b s s' = ((a ≡ 0) × (b ≡ 0) × (s' ≡ s)) ⊎ ((0 < a) × (b + gain s ≤ a))

gain-le : (s : Sync) → gain s ≤ 1
gain-le s = ground arith

pub Progress-then :
    (a b a' b' : ℕ) (s t u : Sync)
    → Progress a b s t
    → Progress a' b' t u
    → Progress (a + a') (b + b') s u
Progress-then a b a' b' s t u (inl (x, y, e)) (inl (x', y', e')) =
    inl (omega arith, omega arith, e' ∙ e)
Progress-then a b a' b' s t u (inl (x, y, e)) (inr (x', y')) =
    let g : gain t ≡ gain s = ap gain e in inr (omega arith, omega (arith, g))
Progress-then a b a' b' s t u (inr (x, y)) (inl (x', y', e')) = inr (omega arith, omega arith)
Progress-then a b a' b' s t u (inr (x, y)) (inr (x', y')) = inr (omega arith, omega arith)

abbrev pub stale_value : ℕ → ℕ → ℕ
stale_value v c = if v == c then 0 else 1

-- The number of cells that are out of date.
abbrev pub stale_cells : List ℕ → List ℕ → ℕ
stale_cells [] cs = 0
stale_cells (v ∷ vs) [] = 0
stale_cells (v ∷ vs) (c ∷ cs) = stale_value v c + stale_cells vs cs

pub length-summary_command :
    (name : List ℕ) (v : ℕ) → length name ≤ 7 → v < 65536 → length (summary_command name v) ≤ 17
unfolding summary_command
length-summary_command name v n h = omega (
  arith,
  length-print 4 v (omega arith),
  length-append name (codes ".val=" ++ print_unsigned v),
  length-append (codes ".val=") (print_unsigned v),
  n,
)

length-cell_command :
    (name : List ℕ) (i v : ℕ)
    → length name ≤ 7
    → i < 100
    → v < 65536
    → length (cell_command name i v) ≤ 19
unfolding cell_command
length-cell_command name i v n l h = omega (
  arith,
  length-print 4 v (omega arith),
  length-print 1 i (omega arith),
  length-append name (print_unsigned i ++ (codes ".val=" ++ print_unsigned v)),
  length-append (print_unsigned i) (codes ".val=" ++ print_unsigned v),
  length-append (codes ".val=") (print_unsigned v),
  n,
)

module _ (max_bytes : ℕ) where
  -- What an emission does for a value that is out of date.
  EmitProgress : Bool × Sync → Sync → Type 0
  EmitProgress r s = (r.0 ≡ true) ⊎ ((r.0 ≡ false) × (gain s ≡ 0))

  emit-Progress :
      (command : List ℕ) (s : Sync)
      → length command + 3 ≤ max_bytes
      → EmitProgress (emit_and_check max_bytes command s) s
  unfolding emit_and_check EmitProgress
  emit-Progress command s h = ground arith

  pub value-Progress :
      (command : List ℕ) (v c : ℕ) (s : Sync)
      → length command + 3 ≤ max_bytes
      → let r = sync_value max_bytes false command v c s in
        Progress (stale_value v c) (stale_value v (r.0)) s (r.1)
  unfolding sync_value EmitProgress
  value-Progress command v c s h =
      by_test (v == c) (emit_and_check max_bytes command s).0 refl refl (emit-Progress command s h)
    where
      sent : Sync
      sent = (emit_and_check max_bytes command s).1

      result : Bool → Bool → ℕ × Sync
      result same done =
          if not same
          then (if done then (v, sent) else (c, record sent { all_processed = false }))
          else (c, s)

      by_test :
          (same done : Bool)
          → v == c ≡ same
          → (emit_and_check max_bytes command s).0 ≡ done
          → EmitProgress (emit_and_check max_bytes command s) s
          → Progress
              (stale_value v c)
              (stale_value v ((result same done).0))
              s
              ((result same done).1)
      by_test true done e d g = inl (ground arith, ground arith, refl)
      by_test false true e d g = inr (ground arith, let l = gain-le s in ground arith)
      by_test false false e d (inl t) = absurd (ground (arith, t, d))
      by_test false false e d (inr (f, g)) = inr (ground arith, omega (arith, g))

  pub cells-Progress :
      (name : List ℕ) (i : ℕ) (vs cs : List ℕ) (s : Sync)
      → length name ≤ 7
      → i + length vs ≤ 24
      → All (λ v. v < 65536) vs
      → 25 ≤ max_bytes
      → let r = sync_cells max_bytes false name i vs cs s in
        Progress (stale_cells vs cs) (stale_cells vs (r.0)) s (r.1)
  unfolding sync_cells
  cells-Progress name i [] cs s n l h m = inl (refl, refl, refl)
  cells-Progress name i (v ∷ vs) [] s n l h m = inl (refl, refl, refl)
  cells-Progress name i (v ∷ vs) (c ∷ cs) s n l (h, hs) m =
      let r = sync_value max_bytes false (cell_command name i v) v c s in
      let rest = sync_cells max_bytes false name (i + 1) vs cs (r.1) in
      Progress-then (stale_value v c) (stale_value v (r.0)) (stale_cells vs cs)
        (stale_cells vs (rest.0)) s (r.1) (rest.1)
        (value-Progress (cell_command name i v) v c s
          (let w = length-cell_command name i v n (omega arith) h in omega arith))
        (cells-Progress name (i + 1) vs cs (r.1) n (omega arith) hs m)

  pub cells-keep :
      (name : List ℕ) (i : ℕ) (vs cs : List ℕ) (s : Sync)
      → length (sync_cells max_bytes false name i vs cs s).0 ≡ length cs
  unfolding sync_cells
  cells-keep name i [] cs s = refl
  cells-keep name i (v ∷ vs) [] s = refl
  cells-keep name i (v ∷ vs) (c ∷ cs) s =
      ap suc
        (cells-keep name (i + 1) vs cs (sync_value max_bytes false (cell_command name i v) v c s).1)

pub stale_cells-le : (vs cs : List ℕ) → stale_cells vs cs ≤ length vs
stale_cells-le [] cs = omega arith
stale_cells-le (v ∷ vs) [] = omega arith
stale_cells-le (v ∷ vs) (c ∷ cs) = let h = stale_cells-le vs cs in ground arith

pub fresh_cells : (vs cs : List ℕ) → length vs ≡ length cs → stale_cells vs cs ≡ 0 → cs ≡ vs
fresh_cells [] [] l h = refl
fresh_cells [] (c ∷ cs) l h = absurd (omega arith)
fresh_cells (v ∷ vs) [] l h = absurd (omega arith)
fresh_cells (v ∷ vs) (c ∷ cs) l h =
    ap₂ (λ x xs. x ∷ xs) (ground arith) (fresh_cells vs cs (omega arith) (omega arith))

pub fresh_value : (v c : ℕ) → stale_value v c ≡ 0 → c ≡ v
fresh_value v c h = ground arith

pub stale_value-le : (v c : ℕ) → stale_value v c ≤ 1
stale_value-le v c = ground arith
