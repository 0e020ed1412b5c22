-- ===== src/Storage/Partition/Appending/Active.antt =====
-- The active segment of `append` in storage/src/partition.rs takes the records of the messages.
use gaffa.Prelude.{
  ℕ, ◌+◌, ◌^◌, ◌<◌, ◌≡◌, refl, sym, ap, ◌∙◌, some, List, [], ◌∷◌, ◌++◌, append-nil, append_assoc,
  arith, length, length-append, All, ◌⊎◌, inl, inr,
}
use mathlib.Core.Path.{subst₂}
use gaffa.Common.Error.{Result, ok}
use gaffa.Protocol.Messages.{Message}
use gaffa.Storage.Compression.{Codecs}
use gaffa.Storage.Record.{DiskRecord}
use gaffa.Storage.Segment
use gaffa.Storage.Segment.{LogSegment, SegmentConfig, should_rotate}
use gaffa.Storage.Segment.Log.{IsStored, log_bytes, log_bytes-append}
use gaffa.Storage.Segment.Reading.{Reads}
use gaffa.Storage.Segment.Appending.Rounds.{records_of}
use gaffa.Storage.Segment.Appending.Whole.{Holds, Holds-Reads, append-Holds}
use gaffa.Storage.Partition.{append_last, last_segment}
use gaffa.Storage.Partition.Chain.{Chain, all_records}

-- The segment stands for these records, with the partition's configuration.
abbrev pub Kept : Codecs → SegmentConfig → LogSegment → List DiskRecord → Type 0
Kept lib c s rs = Holds lib s rs × (s.config ≡ c)

abbrev Appended : Codecs → SegmentConfig → LogSegment → List DiskRecord → ℕ → List Message → Type 0
Appended lib c s rs next ms =
    (s' : LogSegment) × (Segment.append lib s ms ≡ (s', ok next))
    × Kept lib c s' (rs ++ records_of c next ms)
    × (s'.base_offset ≡ s.base_offset)

append-Kept :
    (lib : Codecs) (c : SegmentConfig) (s : LogSegment) (rs : List DiskRecord) (next : ℕ)
    (m : Message) (ms : List Message)
    → Kept lib c s rs
    → s.next_offset ≡ next
    → All (IsStored lib) (records_of c next (m ∷ ms))
    → next + length (m ∷ ms) < 2 ^ 64
    → s.size + length (log_bytes lib (records_of c next (m ∷ ms))) < 2 ^ 64
    → Appended lib c s rs next (m ∷ ms)
append-Kept lib c s rs next m ms (h, config) at =
    subst₂
      (λ d n.
        All (IsStored lib) (records_of d n (m ∷ ms))
        → n + length (m ∷ ms) < 2 ^ 64
        → s.size + length (log_bytes lib (records_of d n (m ∷ ms))) < 2 ^ 64
        → Appended lib d s rs n (m ∷ ms))
      config at
      (λ vs hn hp.
        let (s', e, kept, base, same) = append-Holds lib s rs m ms h vs hn hp in
        (s', e, (kept, same), base))

last_one : (s : LogSegment) → last_segment (s ∷ []) ≡ some s
last_one s = unfold last_segment in refl

last_more :
    (s t : LogSegment) (ss : List LogSegment) → last_segment (s ∷ t ∷ ss) ≡ last_segment (t ∷ ss)
last_more s t ss = unfold last_segment in refl

module _ (lib : Codecs) (s : LogSegment) (ms : List Message) where
  append_last_one :
      (s' : LogSegment) (r : Result ℕ)
      → Segment.append lib s ms ≡ (s', r)
      → append_last lib (s ∷ []) ms ≡ (s' ∷ [], r)
  append_last_one s' r e = unfold append_last in rw (e)

  append_last_more :
      (t : LogSegment) (ss ss' : List LogSegment) (r : Result ℕ)
      → append_last lib (t ∷ ss) ms ≡ (ss', r)
      → append_last lib (s ∷ t ∷ ss) ms ≡ (s ∷ ss', r)
  append_last_more t ss ss' r e = unfold append_last in ap (λ q. let (a, b) = q in (s ∷ a, b)) e

module _ (lib : Codecs) (c : SegmentConfig) where
  -- The last segment is the active one and ends where the partition ends; once it has bytes, an
  -- empty segment may follow it.
  pub active_segment :
      (b : ℕ) (ss : List LogSegment) (rss : List (List DiskRecord))
      → Chain (Kept lib c) b ss rss
      → 0 < length ss
      → (s : LogSegment) × (last_segment ss ≡ some s)
        × (s.next_offset ≡ b + length (all_records rss))
        × (s.config ≡ c)
        × ((new : LogSegment)
            → 0 < s.size
            → new.base_offset ≡ b + length (all_records rss)
            → Kept lib c new []
            → Chain (Kept lib c) b (ss ++ new ∷ []) (rss ++ [] ∷ []))
  active_segment b [] rss h some_segment = absurd (omega arith)
  active_segment b (s ∷ ss) [] h some_segment = absurd h
  active_segment b (s ∷ []) (rs ∷ qs ∷ rss) (at, kept, full, tail) some_segment = absurd tail
  active_segment b (s ∷ []) (rs ∷ []) (at, kept, full, tail) some_segment = (
    s,
    last_one s,
    omega (arith, kept.0.next, at, length-append rs []),
    kept.1,
    λ new size base k. (
      at,
      kept,
      inr (nonempty rs kept.0.end size),
      (omega (arith, base, length-append rs []), k, inl refl, tt),
    ),
  )
    where
      nonempty :
          (qs : List DiskRecord) → s.size ≡ length (log_bytes lib qs) → 0 < s.size → 0 < length qs
      nonempty [] e h = absurd (omega (arith, e))
      nonempty (q ∷ qs) e h = omega arith
  active_segment b (s ∷ t ∷ ss) (rs ∷ rss) (at, kept, full, tail) some_segment =
      let (l, last, next, config, grow) =
        active_segment (b + length rs) (t ∷ ss) rss tail (omega arith) in
      let total = length-append rs (all_records rss) in
      (
        l,
        last_more s t ss ∙ last,
        omega (arith, next, total),
        config,
        λ new size base k.
            (at, kept, still_full new full, grow new size (omega (arith, base, total)) k),
      )
    where
      still_full :
          (new : LogSegment)
          → (t ∷ ss ≡ []) ⊎ (0 < length rs)
          → ((t ∷ ss) ++ new ∷ [] ≡ []) ⊎ (0 < length rs)
      still_full new (inl e) = absurd (cc (e))
      still_full new (inr h) = inr h

-- The last segment of the chain takes the records of the messages.
abbrev pub Grown :
    Codecs → SegmentConfig → ℕ → List LogSegment → List DiskRecord → ℕ → List Message → Type 0
Grown lib c b ss rs next ms =
    (ss' : List LogSegment) × (rss' : List (List DiskRecord)) × (append_last lib ss ms
      ≡ (ss', ok next))
    × Chain (Kept lib c) b ss' rss'
    × (all_records rss' ≡ rs ++ records_of c next ms)
    × (0 < length ss')

module _ (lib : Codecs) (c : SegmentConfig) (next : ℕ) (m : Message) (ms : List Message)
    (stored : All (IsStored lib) (records_of c next (m ∷ ms)))
    (room : next + length (m ∷ ms) < 2 ^ 64) where
  pub append_last-Chain :
      (b : ℕ) (ss : List LogSegment) (rss : List (List DiskRecord))
      → Chain (Kept lib c) b ss rss
      → 0 < length ss
      → next ≡ b + length (all_records rss)
      → length (log_bytes lib (all_records rss))
          + length (log_bytes lib (records_of c next (m ∷ ms)))
        < 2 ^ 64
      → Grown lib c b ss (all_records rss) next (m ∷ ms)
  append_last-Chain b [] rss h some_segment at small = absurd (omega arith)
  append_last-Chain b (s ∷ ss) [] h some_segment at small = absurd h
  append_last-Chain b (s ∷ []) (rs ∷ qs ∷ rss) (base, kept, full, tail) some_segment at small =
      absurd tail
  append_last-Chain b (s ∷ []) (rs ∷ []) (base, kept, full, tail) some_segment at small =
      let (s', e, kept', same) =
        append-Kept lib c s rs next m ms kept
          (omega (arith, kept.0.next, base, at, length-append rs [])) stored room
          (omega (arith, kept.0.end, ap (λ l. length (log_bytes lib l)) (append-nil rs))) in
      (
        s' ∷ [],
        (rs ++ records_of c next (m ∷ ms)) ∷ [],
        append_last_one lib s (m ∷ ms) s' (ok next) e,
        (omega (arith, same, base), kept', inl refl, tt),
        append-nil (rs ++ records_of c next (m ∷ ms))
            ∙ ap (λ l. l ++ records_of c next (m ∷ ms)) (sym (append-nil rs)),
        omega arith,
      )
  append_last-Chain b (s ∷ t ∷ ss) (rs ∷ rss) (base, kept, full, tail) some_segment at small =
      let (ss', rss', e, h, all, some_left) =
        append_last-Chain (b + length rs) (t ∷ ss) rss tail (omega arith)
          (omega (arith, at, length-append rs (all_records rss)))
          (omega (
            arith,
            ap length (log_bytes-append lib rs (all_records rss)),
            length-append (log_bytes lib rs) (log_bytes lib (all_records rss)),
          )) in
      (
        s ∷ ss',
        rs ∷ rss',
        append_last_more lib s (m ∷ ms) t ss ss' (ok next) e,
        (base, kept, still_full ss' full, h),
        ap (λ l. rs ++ l) all
            ∙ sym (append_assoc rs (all_records rss) (records_of c next (m ∷ ms))),
        omega arith,
      )
    where
      still_full :
          (ss' : List LogSegment) → (t ∷ ss ≡ []) ⊎ (0 < length rs) → (ss' ≡ []) ⊎ (0 < length rs)
      still_full ss' (inl e) = absurd (cc (e))
      still_full ss' (inr h) = inr h

pub Kept-Reads :
    (lib : Codecs) (c : SegmentConfig) (s : LogSegment) (rs : List DiskRecord)
    → Kept lib c s rs
    → Reads lib s rs
Kept-Reads lib c s rs h = Holds-Reads lib s rs h.0
