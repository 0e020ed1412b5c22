-- ===== src/Storage/Partition/Appending.antt =====
-- `append` of storage/src/partition.rs adds the records of the messages behind all others.
pub mod Active
use gaffa.Prelude.{
  ℕ, zero, suc, ◌+◌, ◌-◌, ◌^◌, ◌≤◌, ◌<◌, ◌≡◌, refl, sym, ap, ◌∙◌, Bool, true, false, Option, none,
  some, List, [], ◌∷◌, ◌++◌, append-nil, append_assoc, map, arith, length, length-append, All, take,
  drop, drop-append_length, le_cases, Bool-cases, ◌⊎◌, inl, inr, ltb, leb, if◌then◌else◌,
}
use mathlib.Core.Path.{subst, subst₂}
use gaffa.Common.Error.{Result, ok, err}
use gaffa.Protocol.Messages.{Message, Record}
use gaffa.Storage.Compression.{Codecs, CodecLaws}
use gaffa.Storage.Record.{DiskRecord}
use gaffa.Storage.Segment
use gaffa.Storage.Segment.{LogSegment, SegmentConfig, should_rotate}
use gaffa.Storage.Segment.Log.{IsStored, log_bytes, log_bytes-append}
use gaffa.Storage.Segment.Reading.{Reads}
use gaffa.Storage.Segment.Appending.Rounds.{records_of, length-records_of}
use gaffa.Storage.Segment.Appending.Whole.{Holds, Holds-Reads, create-Holds_lem, append-Holds}
use gaffa.Storage.Partition.{
  Directory, Partition, create_segment, append_last, rotated, last_segment, append,
}
use gaffa.Storage.Partition.Chain.{Chain, all_records}
use gaffa.Storage.Partition.Appending.Active.{Kept, Grown, active_segment, append_last-Chain}

module _ (lib : Codecs) (dir : Directory) (p : Partition) (s : LogSegment) where
  rotated_full :
      s.config.max_size ≤ s.size
      → rotated lib dir p s ≡ p.segments ++ create_segment dir p.config s.next_offset ∷ []
  unfolding rotated should_rotate
  rotated_full h = ground arith

  rotated_open : s.size < s.config.max_size → rotated lib dir p s ≡ p.segments
  unfolding rotated should_rotate
  rotated_open h = ground arith

  append_run :
      (m : Message) (ms : List Message) (ss : List LogSegment) (next : ℕ)
      → last_segment p.segments ≡ some s
      → append_last lib (rotated lib dir p s) (m ∷ ms) ≡ (ss, ok next)
      → append lib dir p (m ∷ ms) ≡ (record p { segments = ss }, ok next)
  unfolding append
  append_run m ms ss next last e = ground arith

all_records-snoc : (rss : List (List DiskRecord)) → all_records (rss ++ [] ∷ []) ≡ all_records rss
all_records-snoc [] = refl
all_records-snoc (rs ∷ rss) = ap (λ l. rs ++ l) (all_records-snoc rss)

abbrev pub AppendResult :
    Codecs → SegmentConfig → Directory → Partition → ℕ → List DiskRecord → List Message → Type 0
AppendResult lib c dir p b rs ms =
    (ss : List LogSegment) × (rss : List (List DiskRecord)) × (append lib dir p ms
      ≡ (record p { segments = ss }, ok (b + length rs)))
    × Chain (Kept lib c) b ss rss
    × (all_records rss ≡ rs ++ records_of c (b + length rs) ms)
    × (0 < length ss)

module _ (lib : Codecs) (c : SegmentConfig) (dir : Directory) (p : Partition)
    (config : p.config ≡ c) where
  pub fresh_Kept :
      (next : ℕ)
      → dir.log next ≡ none
      → dir.index next ≡ none
      → Kept lib c (create_segment dir p.config next) []
  unfolding create_segment Segment.create
  fresh_Kept next no_log no_index = (
    subst₂ (λ l i. Holds lib (Segment.create next l i p.config) []) (sym no_log) (sym no_index)
        (create-Holds_lem lib next p.config),
    config,
  )

  fresh_base : (next : ℕ) → (create_segment dir p.config next).base_offset ≡ next
  unfolding create_segment Segment.create
  fresh_base next = refl

  -- `append` of at least one message to a chain of segments succeeds with the partition's next
  -- offset, and the partition is then a chain whose records are the old ones with those of the
  -- messages behind them, whether the active segment was full or not: if there is a segment, the
  -- segments have been open since they were created, the maximal size is not zero, no file is in the
  -- way of a new segment, the records fit the format, and offsets and bytes stay below 2 ^ 64.
  pub append-Chain :
      (b : ℕ) (rss : List (List DiskRecord)) (m : Message) (ms : List Message)
      → Chain (Kept lib c) b p.segments rss
      → 0 < length p.segments
      → 0 < c.max_size
      → dir.log (b + length (all_records rss)) ≡ none
      → dir.index (b + length (all_records rss)) ≡ none
      → All (IsStored lib) (records_of c (b + length (all_records rss)) (m ∷ ms))
      → b + length (all_records rss) + length (m ∷ ms) < 2 ^ 64
      → length (log_bytes lib (all_records rss))
          + length (log_bytes lib (records_of c (b + length (all_records rss)) (m ∷ ms)))
        < 2 ^ 64
      → AppendResult lib c dir p b (all_records rss) (m ∷ ms)
  append-Chain b rss m ms h some_segment limit no_log no_index stored room small =
      let (s, last, next, config_s, grow) = active_segment lib c b p.segments rss h some_segment in
      let n = b + length (all_records rss) in
      elim (le_cases s.config.max_size s.size) [
        | inl full ↦
            let same =
              rotated_full lib dir p s full
              ∙ ap (λ k. p.segments ++ create_segment dir p.config k ∷ []) next in
            let grown =
              grow (create_segment dir p.config n) (omega (arith, ap (λ d. d.max_size) config_s))
                (fresh_base n) (fresh_Kept n no_log no_index) in
            let flat = all_records-snoc rss in
            let (ss, rss', e, h', all, left) =
              append_last-Chain lib c n m ms stored room b
                (p.segments ++ create_segment dir p.config n ∷ []) (rss ++ [] ∷ []) grown
                (omega (arith, length-append p.segments (create_segment dir p.config n ∷ [])))
                (ap (λ l. b + length l) (sym flat))
                (omega (arith, small, ap (λ l. length (log_bytes lib l)) flat)) in
            (
              ss,
              rss',
              append_run lib dir p s m ms ss n last (ap (λ l. append_last lib l (m ∷ ms)) same ∙ e),
              h',
              all ∙ ap (λ l. l ++ records_of c n (m ∷ ms)) flat,
              left,
            )
        | inr fits ↦
            let (ss, rss', e, h', all, left) =
              append_last-Chain lib c n m ms stored room b p.segments rss h some_segment refl
                small in
            (
              ss,
              rss',
              append_run lib dir p s m ms ss n last
                  (ap (λ l. append_last lib l (m ∷ ms)) (rotated_open lib dir p s fits) ∙ e),
              h',
              all,
              left,
            )
      ]
