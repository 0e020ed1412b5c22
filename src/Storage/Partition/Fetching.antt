-- ===== src/Storage/Partition/Fetching.antt =====
-- `fetch` of storage/src/partition.rs returns the records of the whole partition, over its segments.
mod Round
mod Loop
use gaffa.Prelude.{
  ℕ, zero, suc, ◌+◌, ◌-◌, ◌%◌, ◌^◌, ◌≤◌, ◌<◌, String, ◌≡◌, refl, sym, ap, ◌∙◌, Option, none, some,
  List, [], ◌∷◌, ◌++◌, map, append-nil, append_assoc, arith, min, length, length-append,
  length-take, length-drop, take, drop, take_nil, drop_nil, drop_all, take-append, drop-append,
  le_cases, ◌⊎◌, inl, inr, ltb, if◌then◌else◌, sub32,
}
use mathlib.Core.Path.{subst}
use gaffa.Common.Error.{Result, ok, err, invalid_offset, ◌>>=◌}
use gaffa.Protocol.Messages.{Message, Record}
use gaffa.Storage.Compression.{Codecs, CodecLaws}
use gaffa.Storage.Record.{DiskRecord, to_message}
use gaffa.Storage.Segment.{LogSegment, read_batch}
use gaffa.Storage.Segment.Log.{IsFrom}
use gaffa.Storage.Segment.Reading.{Reads, read_batch-records_from, IsFrom-drop}
use gaffa.Storage.Partition.{
  Partition, find_segment_index, fetch_loop, fetch, offset_behind, last_record, to_record,
}
use gaffa.Storage.Partition.Chain.{Chain, all_records, base_at, base_at-lower, base_at_mono}
use gaffa.Storage.Partition.Search.{Splits, find_segment_index-Splits}
use gaffa.Storage.Partition.Fetching.Loop.{IsStart, fetch_loop-Chain}

module _ (lib : Codecs) (laws : CodecLaws lib) where
  IsStart-first :
      (b offset : ℕ) (s : LogSegment) (ss : List LogSegment) (rs : List DiskRecord)
      (rss : List (List DiskRecord))
      → Chain (Reads lib) b (s ∷ ss) (rs ∷ rss)
      → (1 ≡ length (s ∷ ss)) ⊎ (offset < base_at (s ∷ ss) 1)
      → IsStart b offset (s ∷ ss) (rs ∷ rss)
  IsStart-first b offset s [] rs rss h high = inl refl
  IsStart-first b offset s (t ∷ ss) rs [] (at, p, full, tail) high = absurd tail
  IsStart-first b offset s (t ∷ ss) rs (qs ∷ rss) (at, p, full, tail) (inl e) = absurd (omega arith)
  IsStart-first b offset s (t ∷ ss) rs (qs ∷ rss) (at, p, full, tail) (inr q) =
      inr (omega (arith, tail.0))

  behind_first :
      (rs rest : List DiskRecord) (b offset : ℕ)
      → b + length rs ≤ offset
      → drop (offset - b) (rs ++ rest) ≡ drop (offset - (b + length rs)) rest
  behind_first rs rest b offset h =
      drop-append (offset - b) rs rest
      ∙ ap (λ l. l ++ drop (offset - b - length rs) rest) (drop_all (offset - b) rs (omega arith))
      ∙ ap (λ n. drop n rest) {x = offset - b - length rs} {y = offset - (b + length rs)}
          (omega arith)

  next_high : (i n a c : ℕ) → (suc (suc i) ≡ suc n) ⊎ (a < c) → (suc i ≡ n) ⊎ (a < c)
  next_high i n a c (inl e) = inl (omega arith)
  next_high i n a c (inr h) = inr h

  -- The records that a fetch is owed, from the segment on that the search has chosen.
  suffix_fetch :
      (ss : List LogSegment) (rss : List (List DiskRecord)) (b i offset max : ℕ)
      → Chain (Reads lib) b ss rss
      → i < length ss
      → base_at ss i ≤ offset
      → ((suc i ≡ length ss) ⊎ (offset < base_at ss (suc i)))
      → offset + length (all_records rss) < 2 ^ 64
      → max < 2 ^ 32
      → fetch_loop lib (drop i ss) offset max []
        ≡ ok (take max (drop (offset - b) (all_records rss)))
  suffix_fetch [] rss b i offset max h inside low high small room = absurd (omega arith)
  suffix_fetch (s ∷ ss) [] b i offset max h inside low high small room = absurd h
  suffix_fetch (s ∷ ss) (rs ∷ rss) b zero offset max h inside low high small room =
      fetch_loop-Chain lib laws (s ∷ ss) (rs ∷ rss) b offset max [] h (omega (arith, h.0))
        (IsStart-first b offset s ss rs rss h high) small room
  suffix_fetch (s ∷ ss) (rs ∷ rss) b (suc i) offset max (at, p, full, tail) inside low high small
        room =
      let above = base_at-lower (Reads lib) (b + length rs) ss rss i tail (omega arith) in
      suffix_fetch ss rss (b + length rs) i offset max tail (omega arith) low
        (next_high i (length ss) offset (base_at ss (suc i)) high)
        (omega (arith, length-append rs (all_records rss))) room
      ∙ ap (λ l. ok (take max l)) (sym (behind_first rs (all_records rss) b offset (omega arith)))

-- What is stored, as a reader of the partition is owed it.
abbrev pub shown : String → ℕ → DiskRecord → Record
shown topic partition r = record {
  topic = topic;
  partition = partition;
  offset = r.offset;
  message = record { key = r.key; value = r.value; timestamp = r.timestamp };
}

-- What a reader of the partition sees from an offset on.
abbrev pub fetched : Partition → ℕ → List DiskRecord → ℕ → ℕ → Result (List Record)
fetched p b rs offset max =
    if ltb offset b
    then err (invalid_offset offset)
    else ok (map (shown p.topic_name p.partition_id) (take max (drop (offset - b) rs)))

module _ (lib : Codecs) (p : Partition) (b offset max : ℕ) (rs : List DiskRecord) where
  fetch_found :
      (start : ℕ)
      → find_segment_index p.segments offset ≡ ok start
      → fetch_loop lib (drop start p.segments) offset max [] ≡ ok (take max (drop (offset - b) rs))
      → b ≤ offset
      → fetch lib p offset max ≡ fetched p b rs offset max
  unfolding fetch to_record to_message
  fetch_found start e g h = ground arith

  fetch_below :
      find_segment_index p.segments offset ≡ err (invalid_offset offset)
      → offset < b
      → fetch lib p offset max ≡ fetched p b rs offset max
  unfolding fetch
  fetch_below e h = ground arith

found_before :
    (i offset : ℕ) → (if ltb 0 (suc i) then ok (suc i - 1) else err (invalid_offset offset)) ≡ ok i
found_before i offset = ground arith

first_base :
    (P : LogSegment → List DiskRecord → Type 0) (b : ℕ) (ss : List LogSegment)
    (rss : List (List DiskRecord))
    → Chain P b ss rss
    → 0 < length ss
    → base_at ss 0 ≡ b
first_base P b [] rss h l = absurd (omega arith)
first_base P b (s ∷ ss) [] h l = absurd h
first_base P b (s ∷ ss) (rs ∷ rss) h l = h.0

module _ (lib : Codecs) (laws : CodecLaws lib) where
  -- On a partition of at least one segment, whose segments form a chain, `fetch` returns the
  -- records of the concatenation of the segments from the offset on, up to the maximum, and
  -- `InvalidOffset` in front of the first one, if the offsets stay below 2 ^ 64, the maximum is
  -- below 2 ^ 32, and the codecs keep their laws.
  pub fetch-records_from :
      (p : Partition) (rss : List (List DiskRecord)) (b offset max : ℕ)
      → Chain (Reads lib) b p.segments rss
      → 0 < length p.segments
      → offset + length (all_records rss) < 2 ^ 64
      → max < 2 ^ 32
      → fetch lib p offset max ≡ fetched p b (all_records rss) offset max
  fetch-records_from p rss b offset max h some_segment small room = go (
      find_segment_index-Splits p.segments offset
        (λ i j. base_at_mono (Reads lib) b p.segments rss i j h))
    where
      go :
          (r : ℕ) × Splits p.segments offset r
            × (find_segment_index p.segments offset
                ≡ (if ltb 0 r then ok (r - 1) else err (invalid_offset offset)))
          → fetch lib p offset max ≡ fetched p b (all_records rss) offset max
      go (zero, (inside, below, above), e) = fetch_below lib p b offset max (all_records rss) e (
          omega (
            arith,
            above 0 (omega arith) some_segment,
            first_base (Reads lib) b p.segments rss h some_segment,
          ))
      go (suc i, (inside, below, above), e) =
          fetch_found lib p b offset max (all_records rss) i (e ∙ found_before i offset)
            (suffix_fetch lib laws p.segments rss b i offset max h (omega arith)
              (below i (omega arith))
              (elim (le_cases (length p.segments) (suc i)) [
                | inl q ↦ inl (omega arith)
                | inr q ↦ inr (above (suc i) (omega arith) q)
              ])
              small room)
            (omega (
              arith,
              below i (omega arith),
              base_at-lower (Reads lib) b p.segments rss i h (omega arith),
            ))
