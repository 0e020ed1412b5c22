-- ===== src/Storage/Partition/Chain.antt =====
-- Segments in a row: the abstract view of a partition is the concatenation of their records.
use gaffa.Prelude.{
  ℕ, zero, suc, ◌+◌, ◌≤◌, ◌<◌, ◌≡◌, ap, some, List, [], ◌∷◌, ◌++◌, arith, length, get_elem?, ◌⊎◌,
}
use mathlib.Core.Option.{some-injective}
use gaffa.Storage.Record.{DiskRecord}
use gaffa.Storage.Segment.{LogSegment}

-- Each segment has the property with its own records and begins where the one before it ends; only
-- the last one may be empty.
abbrev pub Chain :
    (LogSegment → List DiskRecord → Type 0) → ℕ → List LogSegment → List (List DiskRecord) → Type 0
Chain P b [] [] = Unit
Chain P b [] (rs ∷ rss) = ⊥
Chain P b (s ∷ ss) [] = ⊥
Chain P b (s ∷ ss) (rs ∷ rss) =
    (s.base_offset ≡ b) × P s rs × ((ss ≡ []) ⊎ (0 < length rs)) × Chain P (b + length rs) ss rss

-- All records of a partition, in order.
abbrev pub all_records : List (List DiskRecord) → List DiskRecord
all_records [] = []
all_records (rs ∷ rss) = rs ++ all_records rss

-- The base offset of segment `i`, and 0 out of range.
abbrev pub base_at : List LogSegment → ℕ → ℕ
base_at [] i = 0
base_at (s ∷ ss) zero = s.base_offset
base_at (s ∷ ss) (suc i) = base_at ss i

pub get_elem?-base_at :
    (ss : List LogSegment) (i : ℕ) (s : LogSegment)
    → get_elem? ss i ≡ some s
    → base_at ss i ≡ s.base_offset
get_elem?-base_at [] i s g = cc
get_elem?-base_at (t ∷ ss) zero s g = ap (λ u. u.base_offset) (some-injective t s g)
get_elem?-base_at (t ∷ ss) (suc i) s g = get_elem?-base_at ss i s g

module _ (P Q : LogSegment → List DiskRecord → Type 0)
    (f : (s : LogSegment) (rs : List DiskRecord) → P s rs → Q s rs) where
  pub Chain-map :
      (b : ℕ) (ss : List LogSegment) (rss : List (List DiskRecord))
      → Chain P b ss rss
      → Chain Q b ss rss
  Chain-map b [] [] h = tt
  Chain-map b [] (rs ∷ rss) h = h
  Chain-map b (s ∷ ss) [] h = h
  Chain-map b (s ∷ ss) (rs ∷ rss) (e, p, full, h) =
      (e, f s rs p, full, Chain-map (b + length rs) ss rss h)

module _ (P : LogSegment → List DiskRecord → Type 0) where
  pub base_at-lower :
      (b : ℕ) (ss : List LogSegment) (rss : List (List DiskRecord)) (i : ℕ)
      → Chain P b ss rss
      → i < length ss
      → b ≤ base_at ss i
  base_at-lower b [] rss i h k = absurd (omega arith)
  base_at-lower b (s ∷ ss) [] i h k = absurd h
  base_at-lower b (s ∷ ss) (rs ∷ rss) zero h k = omega (arith, h.0)
  base_at-lower b (s ∷ ss) (rs ∷ rss) (suc i) h k =
      omega (arith, base_at-lower (b + length rs) ss rss i h.3 (omega arith))

  -- The base offsets of a chain grow.
  pub base_at_mono :
      (b : ℕ) (ss : List LogSegment) (rss : List (List DiskRecord)) (i j : ℕ)
      → Chain P b ss rss
      → i ≤ j
      → j < length ss
      → base_at ss i ≤ base_at ss j
  base_at_mono b [] rss i j h k l = absurd (omega arith)
  base_at_mono b (s ∷ ss) [] i j h k l = absurd h
  base_at_mono b (s ∷ ss) (rs ∷ rss) zero j h k l =
      omega (arith, h.0, base_at-lower b (s ∷ ss) (rs ∷ rss) j h l)
  base_at_mono b (s ∷ ss) (rs ∷ rss) (suc i) zero h k l = absurd (omega arith)
  base_at_mono b (s ∷ ss) (rs ∷ rss) (suc i) (suc j) h k l =
      base_at_mono (b + length rs) ss rss i j h.3 (omega arith) (omega arith)
