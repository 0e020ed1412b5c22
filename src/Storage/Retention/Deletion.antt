-- ===== src/Storage/Retention/Deletion.antt =====
-- What `segments_to_delete` of storage/src/retention.rs picks.
use gaffa.Prelude.{
  ℕ, zero, suc, ◌+◌, ◌-◌, ◌^◌, ◌≤◌, ◌<◌, ◌≡◌, refl, ap, ◌∙◌, Bool, true, false, ◌⊎◌, inl, inr, List,
  [], ◌∷◌, map, arith, length, take, drop, sub64, Bool-cases,
}
use gaffa.Storage.Retention.{
  RetentionConfig, SegmentMetadata, age, size, total_size, should_delete_segment, delete_loop,
  segments_to_delete,
}

-- The size of the segments in plain arithmetic.
abbrev pub bytes_of : List SegmentMetadata → ℕ
bytes_of [] = 0
bytes_of (s ∷ ss) = s.size + bytes_of ss

-- Whether the policy gives up the oldest of the segments that are left.
abbrev pub deletable : RetentionConfig → ℕ → List SegmentMetadata → Bool
deletable c now [] = false
deletable c now (s ∷ ss) = should_delete_segment c (age now s) (bytes_of (s ∷ ss)) (length (s ∷ ss))

total_size-bytes_of :
    (ss : List SegmentMetadata) → bytes_of ss < 2 ^ 64 → total_size ss ≡ bytes_of ss
unfolding total_size
total_size-bytes_of [] h = refl
total_size-bytes_of (s ∷ ss) h = omega (arith, total_size-bytes_of ss (omega arith))

deletable_above :
    (c : RetentionConfig) (now : ℕ) (ss : List SegmentMetadata)
    → deletable c now ss ≡ true
    → c.min_segments < length ss
unfolding should_delete_segment
deletable_above c now [] h = cc
deletable_above c now (s ∷ ss) h = ground arith

-- `k` segments go: each was deletable when its turn came, and what is left is not.
abbrev pub Cuts : RetentionConfig → (ℕ → ℕ) → List SegmentMetadata → ℕ → Type 0
Cuts c clock ss k =
    ((i : ℕ) → i < k → deletable c (clock i) (drop i ss) ≡ true)
    × (deletable c (clock k) (drop k ss) ≡ false)
    × (k ≤ length ss - c.min_segments)

module _ (c : RetentionConfig) where
  Cuts-suc :
      (clock : ℕ → ℕ) (s : SegmentMetadata) (ss : List SegmentMetadata) (k : ℕ)
      → deletable c (clock 0) (s ∷ ss) ≡ true
      → Cuts c (λ i. clock (suc i)) ss k
      → Cuts c clock (s ∷ ss) (suc k)
  Cuts-suc clock s ss k d (each, stop, room) =
      (shifted, stop, omega (arith, deletable_above c (clock 0) (s ∷ ss) d))
    where
      shifted : (i : ℕ) → i < suc k → deletable c (clock i) (drop i (s ∷ ss)) ≡ true
      shifted zero h = d
      shifted (suc i) h = each i (omega arith)

  module _ (clock : ℕ → ℕ) (cum : ℕ) (s : SegmentMetadata) (ss : List SegmentMetadata)
      (e : cum ≡ bytes_of (s ∷ ss)) where
    step_goes :
        deletable c (clock 0) (s ∷ ss) ≡ true
        → delete_loop c clock cum (s ∷ ss)
          ≡ s.base_offset ∷ delete_loop c (λ i. clock (suc i)) (sub64 cum s.size) ss
    unfolding delete_loop
    step_goes d = rw (ap (λ n. should_delete_segment c (age (clock 0) s) n (length (s ∷ ss))) e ∙ d)

    step_stays : deletable c (clock 0) (s ∷ ss) ≡ false → delete_loop c clock cum (s ∷ ss) ≡ []
    unfolding delete_loop
    step_stays d =
        rw (ap (λ n. should_delete_segment c (age (clock 0) s) n (length (s ∷ ss))) e ∙ d)

  delete_loop-Cuts :
      (clock : ℕ → ℕ) (cum : ℕ) (ss : List SegmentMetadata)
      → bytes_of ss < 2 ^ 64
      → cum ≡ bytes_of ss
      → (k : ℕ) × (delete_loop c clock cum ss ≡ map (λ s. s.base_offset) (take k ss))
        × Cuts c clock ss k
  delete_loop-Cuts clock cum [] h e =
      (0, unfold delete_loop in refl, (λ i p. absurd (omega arith), refl, omega arith))
  delete_loop-Cuts clock cum (s ∷ ss) h e = elim (Bool-cases (deletable c (clock 0) (s ∷ ss))) [
    | inl goes ↦
        let (k, p, q) =
          delete_loop-Cuts (λ i. clock (suc i)) (sub64 cum s.size) ss (omega arith) (omega arith) in
        (
          suc k,
          step_goes clock cum s ss e goes ∙ ap (λ l. s.base_offset ∷ l) p,
          Cuts-suc clock s ss k goes q,
        )
    | inr stays ↦
        (0, step_stays clock cum s ss e stays, (λ i p. absurd (omega arith), stays, omega arith))
  ]

  -- If the sizes add up to a u64, the deleted segments are a run of oldest ones: each was one too
  -- many by the policy, by its age when the clock was read for it and by the size and the number of
  -- the segments still there at its turn; the first one kept is not; and at least `min_segments` are
  -- kept, or all where there are fewer.
  pub segments_to_delete-Cuts :
      (clock : ℕ → ℕ) (ss : List SegmentMetadata)
      → bytes_of ss < 2 ^ 64
      → (k : ℕ) × (segments_to_delete c clock ss ≡ map (λ s. s.base_offset) (take k ss))
        × Cuts c clock ss k
  unfolding segments_to_delete
  segments_to_delete-Cuts clock ss h =
      delete_loop-Cuts clock (total_size ss) ss h (total_size-bytes_of ss h)

deletable_size :
    (max min now : ℕ) (rest : List SegmentMetadata)
    → deletable (record { policy = size max; min_segments = min }) now rest ≡ false
    → (bytes_of rest ≤ max) ⊎ (length rest ≤ min)
unfolding should_delete_segment
deletable_size max min now [] d = inl (omega arith)
deletable_size max min now (s ∷ rest) d = ground arith

-- With a size limit, what is kept is within the limit, or is down to the minimum, if the sizes add
-- up to a u64.
pub kept_size :
    (max min : ℕ) (clock : ℕ → ℕ) (ss : List SegmentMetadata)
    → bytes_of ss < 2 ^ 64
    → let c : RetentionConfig = record { policy = size max; min_segments = min } in
      (k : ℕ) × (segments_to_delete c clock ss ≡ map (λ s. s.base_offset) (take k ss))
      × ((bytes_of (drop k ss) ≤ max) ⊎ (length (drop k ss) ≤ min))
kept_size max min clock ss h =
    let c : RetentionConfig = record { policy = size max; min_segments = min } in
    let (k, p, q) = segments_to_delete-Cuts c clock ss h in
    (k, p, deletable_size max min (clock k) (drop k ss) q.1)
