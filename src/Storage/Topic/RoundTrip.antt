-- ===== src/Storage/Topic/RoundTrip.antt =====
-- Messages that storage/src/topic.rs appends to a partition are fetched back from the topic.
use gaffa.Prelude.{ℕ, ◌≡◌, refl, sym, ap, ◌∙◌, Option, none, some, get_elem?, List, []}
use gaffa.Prelude.Maps.{nat-Lawful}
use gaffa.Common.Error.{ok, err, partition_not_found, ok_inj}
use gaffa.Protocol.Messages.{Message, Record}
use gaffa.Storage.Compression.{Codecs}
use gaffa.Storage.Partition
use gaffa.Storage.Partition.{Directory, Partition}
use gaffa.Storage.Topic.{Topic, get_partition, set_at, append, fetch}
use gaffa.Storage.Topic.Routing.{get_partition-set_at}

module _ (lib : Codecs) (dirs : ℕ → Directory) (t : Topic) (i : ℕ) (p q : Partition) where
  abbrev pub after : Topic
  after = record t { partitions = set_at i q t.partitions }

  get_elem?-eq-some : get_partition t i ≡ ok p → get_elem? t.partitions i ≡ some p
  unfolding get_partition
  get_elem?-eq-some h = go (get_elem? t.partitions i) refl
    where
      go : (o : Option Partition) → get_elem? t.partitions i ≡ o → get_elem? t.partitions i ≡ some p
      go none e =
          let missing : get_partition t i ≡ err (partition_not_found t.name i) =
            rw (get_partition, e) in
          cc (h, missing)
      go (some x) e =
          let found : get_partition t i ≡ ok x = rw (get_partition, e) in
          e ∙ ap some (ok_inj (sym found ∙ h))

  get_partition-after : get_partition t i ≡ ok p → get_partition after i ≡ ok q
  get_partition-after h =
      get_partition-set_at lib dirs t i [] i q p (get_elem?-eq-some h) ∙ rw (nat-Lawful.complete i)

  -- What the partition makes of an append and of a fetch behind it, the topic makes too.
  pub append-fetch :
      (messages : List Message) (base offset max : ℕ) (records : List Record)
      → get_partition t i ≡ ok p
      → Partition.append lib (dirs i) p messages ≡ (q, ok base)
      → Partition.fetch lib q offset max ≡ ok records
      → (append lib dirs t i messages ≡ (after, ok base))
        × (fetch lib after i offset max ≡ ok records)
  unfolding append fetch
  append-fetch messages base offset max records h a f =
      (rw (append, h, a), rw (fetch, get_partition-after h, f))
