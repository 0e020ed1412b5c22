-- ===== src/Storage/Retention.antt =====
-- storage/src/retention.rs. A `Duration` is a number of nanoseconds.
pub mod Deletion
use gaffa.Prelude.{
  ℕ, suc, ◌+◌, ◌-◌, ◌*◌, ◌%◌, ◌^◌, Bool, true, false, ◌||◌, List, [], ◌∷◌, length, ltb, leb, sub64,
  add64, if◌then◌else◌,
}

abbrev pub Duration : Type 0
Duration = ℕ

abbrev pub from_secs : ℕ → Duration
from_secs s = s * 1000000000

pub data RetentionPolicy : Type 0 where
  time : Duration → RetentionPolicy
  size : ℕ → RetentionPolicy
  both : Duration → ℕ → RetentionPolicy
  unlimited : RetentionPolicy

pub record RetentionConfig : Type 0 where
  pub policy : RetentionPolicy
  pub min_segments : ℕ

-- `RetentionConfig::default`: seven days.
abbrev pub default : RetentionConfig
default = record { policy = time (from_secs (7 * 24 * 60 * 60)); min_segments = 1 }

-- `RetentionConfig::time`, `size`, `both` and `unlimited`.
abbrev pub config_of : RetentionPolicy → RetentionConfig
config_of policy = record { policy = policy; min_segments = 1 }

unfoldable pub with_min_segments : RetentionConfig → ℕ → RetentionConfig
with_min_segments c min = record c { min_segments = min }

expired : RetentionPolicy → Duration → ℕ → Bool
expired unlimited segment_age total_size = false
expired (time max_age) segment_age total_size = ltb max_age segment_age
expired (size max_size) segment_age total_size = ltb max_size total_size
expired (both max_age max_size) segment_age total_size =
    ltb max_age segment_age || ltb max_size total_size

unfoldable pub should_delete_segment : RetentionConfig → Duration → ℕ → ℕ → Bool
unfolding expired
should_delete_segment c segment_age total_size segment_count =
    if leb segment_count c.min_segments then false else expired c.policy segment_age total_size

pub record SegmentMetadata : Type 0 where
  pub base_offset : ℕ
  pub size : ℕ
  pub created_at : ℕ

-- `now` is the clock's reading in seconds; the subtraction saturates.
unfoldable pub age : ℕ → SegmentMetadata → Duration
age now s = from_secs (now - s.created_at)

unfoldable pub total_size : List SegmentMetadata → ℕ
total_size [] = 0
total_size (s ∷ ss) = add64 s.size (total_size ss)

-- The loop over the segments from oldest to newest; `remaining_count` is the length of the list
-- that is left. The clock is read for each segment: `clock i` is what it shows in round `i`.
unfoldable pub delete_loop : RetentionConfig → (ℕ → ℕ) → ℕ → List SegmentMetadata → List ℕ
delete_loop c clock cumulative_size [] = []
delete_loop c clock cumulative_size (s ∷ ss) =
    let rest = delete_loop c (λ i. clock (suc i)) (sub64 cumulative_size s.size) ss in
    if should_delete_segment c (age (clock 0) s) cumulative_size (length (s ∷ ss))
    then s.base_offset ∷ rest
    else []

unfoldable pub segments_to_delete : RetentionConfig → (ℕ → ℕ) → List SegmentMetadata → List ℕ
unfolding delete_loop total_size
segments_to_delete c clock segments = delete_loop c clock (total_size segments) segments
