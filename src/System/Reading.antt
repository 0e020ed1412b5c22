-- ===== src/System/Reading.antt =====
-- A consumer that polls the server reads the log of a partition through.
use gaffa.Prelude.{
  ℕ, zero, suc, ◌+◌, ◌-◌, ◌^◌, ◌<◌, ◌≤◌, ◌≡◌, refl, ap, ◌∙◌, String, some, List, [], ◌∷◌, map,
  arith, length, length-map, take, drop,
}
use gaffa.Common.Error.{ok}
use gaffa.Protocol.Messages.{Record, Request, Response}
use gaffa.Storage.Compression.{Codecs, CodecLaws}
use gaffa.Storage.Record.{DiskRecord}
use gaffa.Storage.Segment.Reading.{Reads}
use gaffa.Storage.Partition
use gaffa.Storage.Partition.{Partition}
use gaffa.Storage.Partition.Chain.{Chain, all_records}
use gaffa.Storage.Partition.Fetching.{shown, fetched, fetch-records_from}
use gaffa.Storage.Topic
use gaffa.Storage.Topic.{Topic, get_topic, get_partition}
use gaffa.Broker.Server.{Server, World, process_request, on_fetch}
use gaffa.Client.Consumer.{Consumer}
use gaffa.Client.Consumer.Polling.{Serves}
use gaffa.System.{serve}
use gaffa.System.Delivery.{next, served}

-- The records of a partition as a consumer gets them.
abbrev pub log_of : Partition → List (List DiskRecord) → List Record
log_of p rss = map (shown p.topic_name p.partition_id) (all_records rss)

module _ (f : DiskRecord → Record) where
  map-take-drop :
      (m n : ℕ) (rs : List DiskRecord) → map f (take m (drop n rs)) ≡ take m (drop n (map f rs))
  map-take-drop zero zero rs = refl
  map-take-drop zero (suc n) rs = refl
  map-take-drop (suc m) zero [] = refl
  map-take-drop (suc m) zero (r ∷ rs) = ap (λ l. f r ∷ l) (map-take-drop m zero rs)
  map-take-drop (suc m) (suc n) [] = refl
  map-take-drop (suc m) (suc n) (r ∷ rs) = map-take-drop (suc m) n rs

module _ (lib : Codecs) (laws : CodecLaws lib) (worlds : ℕ → World) (s : Server) (name : String)
    (i max : ℕ) (t : Topic) (p : Partition) (rss : List (List DiskRecord))
    (found : get_topic s.topic_manager name ≡ ok t) (found_p : get_partition t i ≡ ok p)
    (chain : Chain (Reads lib) 0 p.segments rss) (some_segment : 0 < length p.segments)
    (small : length (all_records rss) + length (all_records rss) < 2 ^ 64)
    (room : max < 2 ^ 32) where
  at_or_behind :
      (offset : ℕ)
      → fetched p 0 (all_records rss) offset max ≡ ok (take max (drop offset (log_of p rss)))
  at_or_behind offset =
      let f = shown p.topic_name p.partition_id in
      let inside : fetched p 0 (all_records rss) offset max
          ≡ ok (map f (take max (drop (offset - 0) (all_records rss)))) =
        ground arith in
      inside
      ∙ ap (λ n. ok (map f (take max (drop n (all_records rss))))) {x = offset - 0} {y = offset}
          (omega arith)
      ∙ ap ok (map-take-drop f max offset (all_records rss))

  fetched_from :
      (offset : ℕ)
      → offset ≤ length (log_of p rss)
      → Topic.fetch lib t i offset max ≡ ok (take max (drop offset (log_of p rss)))
  unfolding Topic.fetch
  fetched_from offset low =
      let whole : Partition.fetch lib p offset max ≡ fetched p 0 (all_records rss) offset max =
        fetch-records_from lib laws p rss 0 offset max chain some_segment
          (omega (arith, length-map (shown p.topic_name p.partition_id) (all_records rss))) room in
      rw (Topic.fetch, found_p, whole) (at_or_behind offset)

  answered :
      (w : World) (offset : ℕ)
      → offset ≤ length (log_of p rss)
      → process_request lib w s (Request.fetch name i offset max)
        ≡ (s, some (Response.fetch_success name i (take max (drop offset (log_of p rss)))))
  unfolding process_request on_fetch
  answered w offset low = rw (on_fetch, found, fetched_from offset low)

  log_served : Serves (serve lib worlds) name i max (log_of p rss)
  log_served = record {
    Ready = λ r. r.server ≡ s;
    answer = λ r offset ready low. (
      next lib worlds r s,
      refl,
      served lib worlds r (Request.fetch name i offset max) s
          (Response.fetch_success name i (take max (drop offset (log_of p rss))))
          (ap (λ x. process_request lib (worlds r.served) x (Request.fetch name i offset max)) ready
            ∙ answered (worlds r.served) offset low),
    );
  }
