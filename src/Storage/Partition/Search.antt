-- ===== src/Storage/Partition/Search.antt =====
-- `find_segment_index` of storage/src/partition.rs on a chain of segments.
use gaffa.Prelude.{
  ℕ, zero, suc, ◌+◌, ◌-◌, ◌/◌, ◌≤◌, ◌<◌, ◌≡◌, refl, ◌∙◌, some, List, arith, length, get_elem?,
  get_elem?_below, le_cases, inl, inr, ltb, if◌then◌else◌,
}
use gaffa.Common.Error.{ok, err, invalid_offset}
use gaffa.Storage.Segment.{LogSegment}
use gaffa.Storage.Partition.{search_loop, find_segment_index}
use gaffa.Storage.Partition.Chain.{base_at, get_elem?-base_at}

abbrev pub IsSorted : List LogSegment → Type 0
IsSorted ss = (i j : ℕ) → i ≤ j → j < length ss → base_at ss i ≤ base_at ss j

-- `r` segments begin at the offset or before it, and the others behind it.
abbrev pub Splits : List LogSegment → ℕ → ℕ → Type 0
Splits ss offset r =
    (r ≤ length ss)
    × ((i : ℕ) → i < r → base_at ss i ≤ offset)
    × ((i : ℕ) → r ≤ i → i < length ss → offset < base_at ss i)

module _ (ss : List LogSegment) (fuel offset left right : ℕ) where
  round_done : right ≤ left → search_loop (suc fuel) ss offset left right ≡ ok left
  unfolding search_loop
  round_done h = ground arith

  module _ (s : LogSegment) (h : left < right)
      (g : get_elem? ss ((left + right) / 2) ≡ some s) where
    round_upper :
        s.base_offset ≤ offset
        → search_loop (suc fuel) ss offset left right
          ≡ search_loop fuel ss offset ((left + right) / 2 + 1) right
    unfolding search_loop
    round_upper c = ground arith

    round_lower :
        offset < s.base_offset
        → search_loop (suc fuel) ss offset left right
          ≡ search_loop fuel ss offset left ((left + right) / 2)
    unfolding search_loop
    round_lower c = ground arith

module _ (ss : List LogSegment) (offset : ℕ) (sorted : IsSorted ss) where
  record Inv (left right : ℕ) : Type 0 where
    ordered : left ≤ right
    inside : right ≤ length ss
    below : (i : ℕ) → i < left → base_at ss i ≤ offset
    above : (i : ℕ) → right ≤ i → i < length ss → offset < base_at ss i

  Inv-Splits : (left right : ℕ) → Inv left right → right ≤ left → Splits ss offset left
  Inv-Splits left right inv h = (
    omega (arith, inv.inside, inv.ordered),
    inv.below,
    λ i p q. inv.above i (omega (arith, inv.ordered)) q,
  )

  module _ (left right : ℕ) (inv : Inv left right) (h : left < right) where
    Inv-upper : base_at ss ((left + right) / 2) ≤ offset → Inv ((left + right) / 2 + 1) right
    Inv-upper c = record {
      ordered = omega arith;
      inside = inv.inside;
      below = λ i p.
          omega (arith, sorted i ((left + right) / 2) (omega arith) (omega (arith, inv.inside)));
      above = inv.above;
    }

    Inv-lower : offset < base_at ss ((left + right) / 2) → Inv left ((left + right) / 2)
    Inv-lower c = record {
      ordered = omega arith;
      inside = omega (arith, inv.inside);
      below = inv.below;
      above = λ i p q. omega (arith, sorted ((left + right) / 2) i p q);
    }

  search_loop-Splits :
      (fuel left right : ℕ)
      → right - left ≤ fuel
      → Inv left right
      → (r : ℕ) × Splits ss offset r × (search_loop fuel ss offset left right ≡ ok r)
  search_loop-Splits zero left right f inv =
      (left, Inv-Splits left right inv (omega arith), unfold search_loop in refl)
  search_loop-Splits (suc fuel) left right f inv = elim (le_cases right left) [
    | inl h ↦ (left, Inv-Splits left right inv h, round_done ss fuel offset left right h)
    | inr h ↦
        let (s, g) = get_elem?_below ss ((left + right) / 2) (omega (arith, inv.inside)) in
        let at = get_elem?-base_at ss ((left + right) / 2) s g in
        elim (le_cases s.base_offset offset) [
          | inl c ↦
              let (r, p, q) =
                search_loop-Splits fuel ((left + right) / 2 + 1) right (omega arith)
                  (Inv-upper left right inv h (omega (arith, at))) in
              (r, p, round_upper ss fuel offset left right s h g c ∙ q)
          | inr c ↦
              let (r, p, q) =
                search_loop-Splits fuel left ((left + right) / 2) (omega arith)
                  (Inv-lower left right inv h (omega (arith, at))) in
              (r, p, round_lower ss fuel offset left right s h g c ∙ q)
        ]
  ]

  whole : Inv 0 (length ss)
  whole = record {
    ordered = omega arith;
    inside = omega arith;
    below = λ i p. absurd (omega arith);
    above = λ i p q. absurd (omega arith);
  }

found_index :
    (ss : List LogSegment) (offset r : ℕ)
    → search_loop (length ss) ss offset 0 (length ss) ≡ ok r
    → find_segment_index ss offset ≡ (if ltb 0 r then ok (r - 1) else err (invalid_offset offset))
unfolding find_segment_index
found_index ss offset r e = rw (e, find_segment_index)

-- Where the base offsets grow, the search gives the last segment that begins at the offset or
-- before it, and `InvalidOffset` when the first one begins behind it.
pub find_segment_index-Splits :
    (ss : List LogSegment) (offset : ℕ)
    → IsSorted ss
    → (r : ℕ) × Splits ss offset r
      × (find_segment_index ss offset
          ≡ (if ltb 0 r then ok (r - 1) else err (invalid_offset offset)))
find_segment_index-Splits ss offset sorted =
    let (r, p, q) =
      search_loop-Splits ss offset sorted (length ss) 0 (length ss) (omega arith)
        (whole ss offset sorted) in
    (r, p, found_index ss offset r q)
