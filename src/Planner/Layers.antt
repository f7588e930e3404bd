-- ===== src/Planner/Layers.antt =====
-- services/planner/src/lib.rs: the layers that the loop of `partition_model` deals out.
use mathlib.Core.List.{append-nil, append_assoc}
use native.Mathlib.Nat.{add-zero, zero-add}
use tensorgrid.Base.{
  ℕ, zero, suc, ◌+◌, ◌-◌, ◌*◌, ◌^◌, ◌≤◌, ◌<◌, ◌≡◌, ◌∙◌, refl, sym, ap, min, true, List, [], ◌∷◌,
  ◌++◌, arith, length, u32, Bool-cases, inl, inr,
}
use tensorgrid.Float.{Float}
use tensorgrid.Types.{StagePlan}
use tensorgrid.Planner.{ModelMetadata, Nodes, iota, is_empty, assign_layers}

pub layers_of : List StagePlan → List ℕ
layers_of [] = []
layers_of (s ∷ ss) = s.layers ++ layers_of ss

pub layers_of-append :
    (ss ts : List StagePlan) → layers_of (ss ++ ts) ≡ layers_of ss ++ layers_of ts
unfolding layers_of
layers_of-append [] ts = refl
layers_of-append (s ∷ ss) ts =
    ap (◌++◌ s.layers) (layers_of-append ss ts)
    ∙ sym (append_assoc s.layers (layers_of ss) (layers_of ts))

iota-append : (a m n : ℕ) → iota a m ++ iota (a + m) n ≡ iota a (m + n)
unfolding iota
iota-append a zero n = simp (add-zero, zero-add)
iota-append a (suc m) n =
    let shift : a + suc m ≡ a + 1 + m = omega arith in
    let more : suc m + n ≡ suc (m + n) = omega arith in
    rw (shift, more) (ap (◌∷◌ a) (iota-append (a + 1) m n))

pub iota_extend : (a b : ℕ) → a ≤ b → iota 0 a ++ iota a (b - a) ≡ iota 0 b
iota_extend a b h =
    let start : 0 + a ≡ a = omega arith in
    let whole : a + (b - a) ≡ b = omega arith in
    ap (λ c. iota 0 a ++ iota c (b - a)) (sym start) ∙ iota-append 0 a (b - a) ∙ ap (iota 0) whole

pub is_empty-iota : (a n : ℕ) → is_empty (iota a n) ≡ true → n ≡ 0
unfolding iota
is_empty-iota a zero h = refl
is_empty-iota a (suc n) h = cc

-- The end of a node's layers.
abbrev pub end_after : ModelMetadata → ℕ → ℕ → ℕ
end_after m per current = min (u32 (current + per)) m.layer_count

module _ {F : Type 0} (fl : Float F) (m : ModelMetadata) (per : ℕ)
    (small : per + m.layer_count < 2 ^ 32) where
  -- Enough rounds reach the last layer.
  pub assign_layers-last :
      (i current : ℕ) (nodes : Nodes F)
      → current ≤ m.layer_count
      → m.layer_count ≤ current + per * length nodes
      → (assign_layers fl m per i current nodes).1 ≡ m.layer_count
  unfolding assign_layers
  assign_layers-last i current [] low high = omega arith
  assign_layers-last i current ((id, node) ∷ nodes) low high =
      let end_layer = end_after m per current in
      elim (Bool-cases (is_empty (iota current (end_layer - current)))) [
        | inl none_left ↦ rw none_left (
            assign_layers-last (i + 1) current nodes low
              (omega (arith, is_empty-iota current (end_layer - current) none_left)))
        | inr some_left ↦
            rw some_left (assign_layers-last (i + 1) end_layer nodes (omega arith) (omega arith))
      ]

  -- What was dealt out before, with what the loop deals out, is the layers up to its last.
  pub assign_layers-layers :
      (i current : ℕ) (nodes : Nodes F)
      → current ≤ m.layer_count
      → let (stages, last) = assign_layers fl m per i current nodes in
        iota 0 current ++ layers_of stages ≡ iota 0 last
  unfolding assign_layers layers_of
  assign_layers-layers i current [] low = append-nil (iota 0 current)
  assign_layers-layers i current ((id, node) ∷ nodes) low =
      let end_layer = end_after m per current in
      let layers = iota current (end_layer - current) in
      let rest = layers_of (assign_layers fl m per (i + 1) end_layer nodes).0 in
      elim (Bool-cases (is_empty layers)) [
        | inl none_left ↦ rw none_left (assign_layers-layers (i + 1) current nodes low)
        | inr some_left ↦ rw some_left (
            sym (append_assoc (iota 0 current) layers rest)
            ∙ ap (λ ls. ls ++ rest) (iota_extend current end_layer (omega arith))
            ∙ assign_layers-layers (i + 1) end_layer nodes (omega arith))
      ]
