-- ===== src/Storage/Partition/Fetching/Loop.antt =====
-- The loop of `fetch` in storage/src/partition.rs over a chain of segments.
use gaffa.Prelude.{
  ℕ, zero, suc, ◌+◌, ◌-◌, ◌^◌, ◌≤◌, ◌<◌, ◌≡◌, sym, ap, ◌∙◌, List, [], ◌∷◌, ◌++◌, append-nil,
  append_assoc, arith, min, length, length-append, length-take, length-drop, take, drop, take_nil,
  drop_nil, take-append, drop-append, le_cases, ◌⊎◌, inl, inr,
}
use mathlib.Core.Path.{subst}
use gaffa.Common.Error.{ok}
use gaffa.Storage.Compression.{Codecs, CodecLaws}
use gaffa.Storage.Record.{DiskRecord}
use gaffa.Storage.Segment.{LogSegment, read_batch}
use gaffa.Storage.Segment.Log.{IsFrom}
use gaffa.Storage.Segment.Reading.{Reads, read_batch-records_from, IsFrom-drop}
use gaffa.Storage.Partition.{fetch_loop}
use gaffa.Storage.Partition.Chain.{Chain, all_records}
use gaffa.Storage.Partition.Fetching.Round.{
  fetch_loop_zero, IsFrom-take, fetch_loop_cases, fetch_loop_nil,
}

-- The fetch starts inside the first segment, or that is the last one.
abbrev pub IsStart : ℕ → ℕ → List LogSegment → List (List DiskRecord) → Type 0
IsStart b current [] rss = Unit
IsStart b current (s ∷ ss) [] = Unit
IsStart b current (s ∷ ss) (rs ∷ rss) = (ss ≡ []) ⊎ (current < b + length rs)

module _ (lib : Codecs) (laws : CodecLaws lib) where
  module _ (s : LogSegment) (rs : List DiskRecord) (b current remaining : ℕ)
      (at : s.base_offset ≡ b) (low : b ≤ current) (h : Reads lib s rs) where
    abbrev got : List DiskRecord
    got = take remaining (drop (current - b) rs)

    read_got : read_batch lib s current remaining ≡ ok got
    read_got =
        read_batch-records_from lib laws s rs h current remaining
        ∙ ground (arith, ap (λ n. take remaining (drop (current - n) rs)) at)

    length-got : length got ≡ min remaining (length rs - (current - b))
    length-got =
        omega (arith, length-take remaining (drop (current - b) rs), length-drop (current - b) rs)

    IsFrom-got : IsFrom current got
    IsFrom-got = IsFrom-take remaining current (drop (current - b) rs) (
        subst (λ m. IsFrom m (drop (current - b) rs)) {x = s.base_offset + (current - b)}
          {y = current} (omega (arith, at)) (IsFrom-drop (current - b) s.base_offset rs h.from))

    -- The first segment's share of what is asked for.
    share :
        (rest : List DiskRecord)
        → take remaining (drop (current - b) (rs ++ rest))
          ≡ got
            ++ take (remaining - (length rs - (current - b))) (drop (current - b - length rs) rest)
    share rest =
        ap (take remaining) (drop-append (current - b) rs rest)
        ∙ take-append remaining (drop (current - b) rs) (drop (current - b - length rs) rest)
        ∙ ap (λ n. got ++ take n (drop (current - b - length rs) rest))
            {x = remaining - length (drop (current - b) rs)}
            {y = remaining - (length rs - (current - b))}
            (omega (arith, length-drop (current - b) rs))

  module _ (s : LogSegment) (rs : List DiskRecord) (b current n : ℕ) (out : List DiskRecord)
      (at : s.base_offset ≡ b) (low : b ≤ current) (h : Reads lib s rs) where
    abbrev here : List DiskRecord
    here = take (suc n) (drop (current - b) rs)

    length-here : length here ≡ min (suc n) (length rs - (current - b))
    length-here = length-got s rs b current (suc n) at low h

    -- The first round of the loop.
    first_round :
        (ss : List LogSegment)
        → current + length rs < 2 ^ 64
        → suc n < 2 ^ 32
        → ((here ≡ []) × (fetch_loop lib (s ∷ ss) current (suc n) out ≡ ok out))
          ⊎ (fetch_loop lib (s ∷ ss) current (suc n) out
              ≡ fetch_loop lib ss (current + length here) (suc n - length here) (out ++ here))
    first_round ss small room =
        fetch_loop_cases lib s ss current (suc n) out here
          (read_got s rs b current (suc n) at low h) (IsFrom-got s rs b current (suc n) at low h)
          (omega (arith, length-here)) (omega arith) room (omega (arith, length-here))

    module _ (rest : List DiskRecord) where
      -- The segment yields all that is left to read.
      round_done :
          n < length rs - (current - b)
          → ok (out ++ here) ≡ ok (out ++ take (suc n) (drop (current - b) (rs ++ rest)))
      round_done c =
          ap ok (sym (ap (λ l. out ++ l) (append-nil here)))
          ∙ ap (λ k. ok (out ++ (here ++ take k (drop (current - b - length rs) rest)))) {x = 0}
              {y = suc n - (length rs - (current - b))} (omega arith)
          ∙ ap (λ l. ok (out ++ l)) (sym (share s rs b current (suc n) at low h rest))

      -- What is left is read from the segments behind it.
      round_left :
          (k : ℕ)
          → k ≡ length rs - (current - b)
          → current < b + length rs
          → ok ((out ++ here) ++ take (suc n - k) (drop 0 rest))
            ≡ ok (out ++ take (suc n) (drop (current - b) (rs ++ rest)))
      round_left k e c =
          ap ok (append_assoc out here (take (suc n - k) rest))
          ∙ ap (λ m. ok (out ++ (here ++ take (suc n - m) rest))) e
          ∙ ap (λ m. ok (out ++ (here ++ take (suc n - (length rs - (current - b))) (drop m rest))))
              {x = 0} {y = current - b - length rs} (omega arith)
          ∙ ap (λ l. ok (out ++ l)) (sym (share s rs b current (suc n) at low h rest))

    last_round :
        current + length rs < 2 ^ 64
        → suc n < 2 ^ 32
        → fetch_loop lib (s ∷ []) current (suc n) out
          ≡ ok (out ++ take (suc n) (drop (current - b) (rs ++ [])))
    last_round small room =
        (elim (first_round [] small room) [
          | inl (e, q) ↦ q ∙ ap ok (sym (append-nil out)) ∙ ap (λ l. ok (out ++ l)) (sym e)
          | inr q ↦
              q ∙ fetch_loop_nil lib (current + length here) (suc n - length here) (out ++ here)
        ])
        ∙ ap (λ l. ok (out ++ take (suc n) (drop (current - b) l))) (sym (append-nil rs))

  IsStart-tail :
      (b : ℕ) (ss : List LogSegment) (rss : List (List DiskRecord))
      → Chain (Reads lib) b ss rss
      → IsStart b b ss rss
  IsStart-tail b [] rss h = tt
  IsStart-tail b (s ∷ ss) [] h = tt
  IsStart-tail b (s ∷ ss) (rs ∷ rss) (at, h, inl e, tail) = inl e
  IsStart-tail b (s ∷ ss) (rs ∷ rss) (at, h, inr p, tail) = inr (omega arith)

  inside_first :
      (b current : ℕ) (s t : LogSegment) (ss : List LogSegment) (rs : List DiskRecord)
      (rss : List (List DiskRecord))
      → IsStart b current (s ∷ t ∷ ss) (rs ∷ rss)
      → current < b + length rs
  inside_first b current s t ss rs rss (inl e) = absurd (cc (e))
  inside_first b current s t ss rs rss (inr p) = p

  -- The loop over a chain of segments gathers the records from the offset on, up to what remains.
  pub fetch_loop-Chain :
      (ss : List LogSegment) (rss : List (List DiskRecord)) (b current remaining : ℕ)
      (out : List DiskRecord)
      → Chain (Reads lib) b ss rss
      → b ≤ current
      → IsStart b current ss rss
      → current + length (all_records rss) < 2 ^ 64
      → remaining < 2 ^ 32
      → fetch_loop lib ss current remaining out
        ≡ ok (out ++ take remaining (drop (current - b) (all_records rss)))
  fetch_loop-Chain [] [] b current remaining out h low start small room =
      fetch_loop_nil lib current remaining out
      ∙ ap ok (
          sym (
            ap (λ l. out ++ take remaining l) (drop_nil (current - b))
            ∙ ap (λ l. out ++ l) (take_nil remaining)
            ∙ append-nil out))
  fetch_loop-Chain [] (rs ∷ rss) b current remaining out h low start small room = absurd h
  fetch_loop-Chain (s ∷ ss) [] b current remaining out h low start small room = absurd h
  fetch_loop-Chain (s ∷ ss) (rs ∷ rss) b current zero out h low start small room =
      fetch_loop_zero lib (s ∷ ss) current out ∙ ap ok (sym (append-nil out))
  fetch_loop-Chain (s ∷ []) (rs ∷ []) b current (suc n) out (at, h, full, tail) low start small
        room =
      last_round s rs b current n out at low h (omega (arith, length-append rs [])) room
  fetch_loop-Chain (s ∷ []) (rs ∷ qs ∷ rss) b current (suc n) out (at, h, full, tail) low start
        small room =
      absurd tail
  fetch_loop-Chain (s ∷ t ∷ ss) (rs ∷ rss) b current (suc n) out (at, h, full, tail) low start small
        room =
      let inside = inside_first b current s t ss rs rss start in
      let got_length = length-here s rs b current n out at low h in
      let total = length-append rs (all_records rss) in
      elim (first_round s rs b current n out at low h (t ∷ ss) (omega (arith, total)) room) [
        | inl (e, q) ↦ absurd (omega (arith, got_length, ap length e))
        | inr q ↦ elim (le_cases (length rs - (current - b)) n) [
          | inr c ↦
              q
              ∙ ap
                  (λ k.
                    fetch_loop lib (t ∷ ss) (current + length (here s rs b current n out at low h))
                      k (out ++ here s rs b current n out at low h))
                  {x = suc n - length (here s rs b current n out at low h)} {y = 0}
                  (omega (arith, got_length))
              ∙ fetch_loop_zero lib (t ∷ ss) _ _
              ∙ round_done s rs b current n out at low h (all_records rss) c
          | inl c ↦
              q
              ∙ ap
                  (λ k.
                    fetch_loop lib (t ∷ ss) k (suc n - length (here s rs b current n out at low h))
                      (out ++ here s rs b current n out at low h))
                  {x = current + length (here s rs b current n out at low h)} {y = b + length rs}
                  (omega (arith, got_length))
              ∙ fetch_loop-Chain (t ∷ ss) rss (b + length rs) (b + length rs) _ _ tail (omega arith)
                  (IsStart-tail (b + length rs) (t ∷ ss) rss tail) (omega (arith, total))
                  (omega arith)
              ∙ ap
                  (λ k. ok (
                    (out ++ here s rs b current n out at low h)
                    ++ take (suc n - length (here s rs b current n out at low h))
                        (drop k (all_records rss))))
                  {x = b + length rs - (b + length rs)} {y = 0} (omega arith)
              ∙ round_left s rs b current n out at low h (all_records rss) _
                  (omega (arith, got_length)) inside
        ]
      ]
