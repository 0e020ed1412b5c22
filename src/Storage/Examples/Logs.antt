-- ===== src/Storage/Examples/Logs.antt =====
-- Concrete runs of segments and partitions of storage/src.
use gaffa.Prelude.{
  ℕ, ◌-◌, ◌≤◌, ◌<◌, ◌≡◌, refl, sym, ap, ◌∙◌, none, some, List, [], ◌∷◌, ◌++◌, arith, length,
  append-nil, take, inl, ltb, if◌then◌else◌,
}
use mathlib.Core.Path.{subst}
use gaffa.Common.Error.{ok, err, invalid_offset}
use gaffa.Protocol.Messages.{Message}
use gaffa.Storage.Compression.{compress}
use gaffa.Storage.Record.{DiskRecord, new, serialized_size}
use gaffa.Storage.Record.Size.{length-encode}
use gaffa.Storage.Segment
use gaffa.Storage.Segment.{LogSegment, create, record_of, read, read_batch, open_existing}
use gaffa.Storage.Segment.Log.{IsStored, record_bytes, log_bytes, encode-record_bytes}
use gaffa.Storage.Segment.Reading.{
  Reads, record_at, records_from, read-record_at, read_batch-records_from,
}
use gaffa.Storage.Segment.Appending.Rounds.{records_of}
use gaffa.Storage.Segment.Appending.Whole.{Holds, Holds-Reads, create-Holds_lem, append-Holds}
use gaffa.Storage.Segment.Recovery.{open_existing-Holds}
use gaffa.Storage.Partition.{Directory, Partition, append, fetch, find_segment_index}
use gaffa.Storage.Partition.Chain.{Chain, base_at}
use gaffa.Storage.Partition.Search.{Splits, find_segment_index-Splits}
use gaffa.Storage.Partition.Fetching.{fetched, fetch-records_from}
use gaffa.Storage.Partition.Appending.{AppendResult, append-Chain}
use gaffa.Storage.Partition.Appending.Active.{Kept}
use gaffa.Storage.Partition.RoundTrip.{delivered, append-fetch}
use gaffa.Storage.Examples.Fixtures.{plain, plain-CodecLaws}

abbrev pub greeting : Message
greeting = record { key = none; value = 72 ∷ 105 ∷ []; timestamp = 1700000000 }

abbrev fresh : LogSegment
fresh = create 0 none none Segment.default

abbrev pub greeted : List DiskRecord
greeted = records_of Segment.default 0 (greeting ∷ [])

pub greeted-IsStored : IsStored plain (record_of Segment.default 0 greeting)
unfolding record_of new compress
greeted-IsStored = (
  72 ∷ 105 ∷ [],
  refl,
  record { offset = omega arith; timestamp = omega arith; key = omega arith; body = omega arith },
)

pub length-greeted : length (log_bytes plain greeted) ≡ 35
unfolding record_of new compress serialized_size
length-greeted = omega (
  arith,
  ap length (append-nil (record_bytes plain (record_of Segment.default 0 greeting))),
  length-encode plain (record_of Segment.default 0 greeting) (72 ∷ 105 ∷ [])
      (record_bytes plain (record_of Segment.default 0 greeting)) refl
      (encode-record_bytes plain (record_of Segment.default 0 greeting) greeted-IsStored),
)

fresh-Holds : Holds plain fresh []
fresh-Holds = create-Holds_lem plain 0 Segment.default

append-Holds_example :
    (s' : LogSegment) × (Segment.append plain fresh (greeting ∷ []) ≡ (s', ok fresh.next_offset))
    × Holds plain s' ([] ++ records_of fresh.config fresh.next_offset (greeting ∷ []))
    × (s'.base_offset ≡ fresh.base_offset)
    × (s'.config ≡ fresh.config)
unfolding create
append-Holds_example =
    append-Holds plain fresh [] greeting [] fresh-Holds (greeted-IsStored, tt) (omega arith)
      (omega (arith, length-greeted))

-- The segment with one record.
abbrev logged : LogSegment
logged = (Segment.append plain fresh (greeting ∷ [])).0

logged-Holds : Holds plain logged greeted
unfolding create
logged-Holds =
    let (s', e, h, base, config) =
      append-Holds plain fresh [] greeting [] fresh-Holds (greeted-IsStored, tt) (omega arith)
        (omega (arith, length-greeted)) in
    subst (λ s. Holds plain s greeted) (sym (ap (λ p. p.0) e)) h

logged-base : logged.base_offset ≡ 0
unfolding create
logged-base =
    let (s', e, h, base, config) =
      append-Holds plain fresh [] greeting [] fresh-Holds (greeted-IsStored, tt) (omega arith)
        (omega (arith, length-greeted)) in
    ap (λ p. (p.0).base_offset) e ∙ base

read-record_at_example : read plain logged 0 ≡ record_at logged.base_offset greeted 0
read-record_at_example =
    read-record_at plain plain-CodecLaws logged greeted
      (Holds-Reads plain logged greeted logged-Holds) 0

read_batch-records_from_example :
    read_batch plain logged 0 10 ≡ records_from logged.base_offset greeted 0 10
read_batch-records_from_example =
    read_batch-records_from plain plain-CodecLaws logged greeted
      (Holds-Reads plain logged greeted logged-Holds) 0 10

open_existing-Holds_example :
    (s' : LogSegment) × (open_existing plain logged.base_offset
        (some logged.log_file.contents)
        (some logged.index.file.contents)
        Segment.default
      ≡ ok s')
    × (s'.next_offset ≡ logged.next_offset)
    × ((offset : ℕ) → read plain s' offset ≡ record_at logged.base_offset greeted offset)
open_existing-Holds_example =
    open_existing-Holds plain plain-CodecLaws logged greeted Segment.default logged-Holds
      (omega (arith, logged-base))

abbrev pub empty_dir : Directory
empty_dir = record { log = λ base. none; index = λ base. none }

-- A new partition, and one with a record.
abbrev pub orders : Partition
orders = record {
  partition_id = 3;
  topic_name = "orders";
  segments = fresh ∷ [];
  config = Segment.default;
}

abbrev pub sold : Partition
sold = record orders { segments = logged ∷ [] }

pub orders-Chain : Chain (Kept plain Segment.default) 0 orders.segments ([] ∷ [])
unfolding create
orders-Chain = (refl, (fresh-Holds, refl), inl refl, tt)

pub sold-Chain : Chain (Reads plain) 0 sold.segments (greeted ∷ [])
sold-Chain = (logged-base, Holds-Reads plain logged greeted logged-Holds, inl refl, tt)

append-Chain_example : AppendResult plain Segment.default empty_dir orders 0 [] (greeting ∷ [])
append-Chain_example =
    append-Chain plain Segment.default empty_dir orders refl 0 ([] ∷ []) greeting [] orders-Chain
      (omega arith) (omega arith) refl refl (greeted-IsStored, tt) (omega arith)
      (omega (arith, length-greeted))

fetch-records_from_example : fetch plain sold 0 10 ≡ fetched sold 0 (greeted ++ []) 0 10
fetch-records_from_example =
    fetch-records_from plain plain-CodecLaws sold (greeted ∷ []) 0 0 10 sold-Chain (omega arith)
      (omega arith) (omega arith)

append-fetch_example :
    (p' : Partition) × (append plain empty_dir orders (greeting ∷ []) ≡ (p', ok 0))
    × (fetch plain p' 0 10 ≡ ok (take 10 (delivered "orders" 3 0 (greeting ∷ []))))
append-fetch_example =
    append-fetch plain plain-CodecLaws Segment.default empty_dir orders 0 ([] ∷ []) greeting [] 10
      refl orders-Chain (omega arith) (omega arith) refl refl (greeted-IsStored, tt) (omega arith)
      (omega (arith, length-greeted)) (omega arith)

find_segment_index-Splits_example :
    (r : ℕ) × Splits (logged ∷ []) 0 r
    × (find_segment_index (logged ∷ []) 0
        ≡ (if ltb 0 r then ok (r - 1) else err (invalid_offset 0)))
find_segment_index-Splits_example = find_segment_index-Splits (logged ∷ []) 0 sorted
  where
    sorted : (i j : ℕ) → i ≤ j → j < 1 → base_at (logged ∷ []) i ≤ base_at (logged ∷ []) j
    sorted i j h k = omega (arith, ap (base_at (logged ∷ [])) {x = i} {y = j} (omega arith))
