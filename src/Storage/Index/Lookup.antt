-- ===== src/Storage/Index/Lookup.antt =====
-- The binary search of storage/src/index.rs on a sorted index.
pub mod Places
use gaffa.Prelude.{
  ℕ, zero, suc, ◌+◌, ◌-◌, ◌/◌, ◌≤◌, ◌<◌, ◌≡◌, refl, sym, ap, ◌∙◌, Option, none, some, List, [], ◌∷◌,
  ◌++◌, arith, length, length-append, get_elem?, get_elem?_below, get_elem?-append_left,
  get_elem?-append_right, All, le_cases, inl, inr,
}
use mathlib.Core.Option.{some-injective}
use gaffa.Prelude.Bytes.{Bytes}
use gaffa.Common.Error.{ok}
use gaffa.Storage.Index.{OffsetIndex, lookup, lookup_loop}
use gaffa.Storage.Index.Entries.{
  Entry, IsEntry, entries_bytes, Reads, read_offset_at-entries, read_position_at-entries,
}
pub use Places.{
  offset_at, IsSorted, position_before, Splits, get_elem?-offset_at, get_elem?-position_before,
  IsSorted-append, next_place,
}

-- One round of the loop, in its three cases.
module _ (es : List Entry) (valid : All IsEntry es) (fuel target left right : ℕ) where
  abbrev mid : ℕ
  mid = (left + right) / 2

  module _ (result : Option ℕ) where
    round_done :
        right ≤ left
        → lookup_loop (suc fuel) (entries_bytes es) target left right result ≡ ok result
    unfolding lookup_loop
    round_done h = ground arith

    module _ (e : Entry) (h : left < right) (g : get_elem? es mid ≡ some e) where
      round_upper :
          e.0 ≤ target
          → lookup_loop (suc fuel) (entries_bytes es) target left right result
            ≡ lookup_loop fuel (entries_bytes es) target (mid + 1) right (some e.1)
      unfolding lookup_loop
      round_upper c = ground (
        arith,
        read_offset_at-entries es mid e valid g,
        read_position_at-entries es mid e valid g,
      )

      round_lower :
          target < e.0
          → lookup_loop (suc fuel) (entries_bytes es) target left right result
            ≡ lookup_loop fuel (entries_bytes es) target left mid result
      unfolding lookup_loop
      round_lower c = ground (arith, read_offset_at-entries es mid e valid g)

module _ (es : List Entry) (target : ℕ) (valid : All IsEntry es) (sorted : IsSorted es) where
  record Inv (left right : ℕ) : Type 0 where
    ordered : left ≤ right
    inside : right ≤ length es
    below : (i : ℕ) → i < left → offset_at es i ≤ target
    above : (i : ℕ) → right ≤ i → i < length es → target < offset_at es i

  -- What the loop returns from a place where the result is that of the entry before `left`.
  abbrev Finds : ℕ → ℕ → ℕ → Type 0
  Finds fuel left right =
      (r : ℕ) × Splits es target r
      × (lookup_loop fuel (entries_bytes es) target left right (position_before es left)
          ≡ ok (position_before es r))

  Inv-Splits : (left right : ℕ) → Inv left right → right ≤ left → Splits es target left
  Inv-Splits left right inv h = (
    omega (arith, inv.inside, inv.ordered),
    inv.below,
    λ i p q. inv.above i (omega (arith, inv.ordered)) q,
  )

  module _ (left right : ℕ) (inv : Inv left right) (h : left < right) where
    abbrev m : ℕ
    m = (left + right) / 2

    Inv-upper : offset_at es m ≤ target → Inv (m + 1) right
    Inv-upper c = record {
      ordered = omega arith;
      inside = inv.inside;
      below = λ i p. omega (arith, sorted i m (omega arith) (omega (arith, inv.inside)));
      above = inv.above;
    }

    Inv-lower : target < offset_at es m → Inv left m
    Inv-lower c = record {
      ordered = omega arith;
      inside = omega (arith, inv.inside);
      below = inv.below;
      above = λ i p q. omega (arith, sorted m i p q);
    }

  lookup_loop-Splits :
      (fuel left right : ℕ) → right - left ≤ fuel → Inv left right → Finds fuel left right
  lookup_loop-Splits zero left right f inv =
      (left, Inv-Splits left right inv (omega arith), unfold lookup_loop in refl)
  lookup_loop-Splits (suc fuel) left right f inv = elim (le_cases right left) [
    | inl h ↦ (
      left,
      Inv-Splits left right inv h,
      round_done es valid fuel target left right (position_before es left) h,
    )
    | inr h ↦
        let (e, g) = get_elem?_below es ((left + right) / 2) (omega (arith, inv.inside)) in
        let at = get_elem?-offset_at es ((left + right) / 2) e g in
        elim (le_cases e.0 target) [
          | inl c ↦
              let (r, s, q) =
                lookup_loop-Splits fuel ((left + right) / 2 + 1) right (omega arith)
                  (Inv-upper left right inv h (omega (arith, at))) in
              (
                r,
                s,
                round_upper es valid fuel target left right (position_before es left) e h g c
                    ∙ ap (lookup_loop fuel (entries_bytes es) target ((left + right) / 2 + 1) right)
                        (sym (get_elem?-position_before es ((left + right) / 2) e g)
                          ∙ next_place es ((left + right) / 2))
                    ∙ q,
              )
          | inr c ↦
              let (r, s, q) =
                lookup_loop-Splits fuel left ((left + right) / 2) (omega arith)
                  (Inv-lower left right inv h (omega (arith, at))) in
              (
                r,
                s,
                round_lower es valid fuel target left right (position_before es left) e h g c ∙ q,
              )
        ]
  ]

lookup_map :
    (idx : OffsetIndex) (mmap : Bytes) (target : ℕ)
    → 0 < idx.size
    → idx.mmap ≡ some mmap
    → lookup idx target ≡ lookup_loop idx.size mmap target 0 idx.size none
unfolding lookup
lookup_map idx mmap target h e = ground arith

lookup_empty : (idx : OffsetIndex) (target : ℕ) → idx.size ≡ 0 → lookup idx target ≡ ok none
unfolding lookup
lookup_empty idx target h = ground arith

-- On an index that holds sorted entries, `lookup` returns the position of the last entry whose
-- offset is at most the target, and nothing exactly when no entry has such an offset: the place `r`
-- splits the entries into those at most the target and those above it.
pub lookup-Splits :
    (idx : OffsetIndex) (es : List Entry) (target : ℕ)
    → Reads idx es
    → IsSorted es
    → (r : ℕ) × Splits es target r × (lookup idx target ≡ ok (position_before es r))
lookup-Splits idx es target h sorted = elim (le_cases (length es) 0) [
  | inl none_held ↦ (
    0,
    (omega arith, λ i p. absurd (omega arith), λ i p q. absurd (omega arith)),
    lookup_empty idx target (omega (arith, h.size)),
  )
  | inr some_held ↦
      let (r, s, q) =
        lookup_loop-Splits es target h.valid sorted (length es) 0 (length es) (omega arith)
          (record {
            ordered = omega arith;
            inside = omega arith;
            below = λ i p. absurd (omega arith);
            above = λ i p t. absurd (omega arith);
          }) in
      (
        r,
        s,
        lookup_map idx (entries_bytes es) target (omega (arith, h.size)) (h.mmap some_held)
            ∙ ap (λ n. lookup_loop n (entries_bytes es) target 0 n none) h.size
            ∙ q,
      )
]
