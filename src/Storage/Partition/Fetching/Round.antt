-- ===== src/Storage/Partition/Fetching/Round.antt =====
-- One round of the loop of `fetch` in storage/src/partition.rs.
use gaffa.Prelude.{
  ℕ, zero, suc, ◌+◌, ◌-◌, ◌%◌, ◌^◌, ◌≤◌, ◌<◌, ◌≡◌, refl, ap, ◌∙◌, List, [], ◌∷◌, ◌++◌, arith,
  length, take, ◌⊎◌, inl, inr, sub32,
}
use gaffa.Common.Error.{ok}
use gaffa.Storage.Compression.{Codecs}
use gaffa.Storage.Record.{DiskRecord}
use gaffa.Storage.Segment.{LogSegment, read_batch}
use gaffa.Storage.Segment.Log.{IsFrom}
use gaffa.Storage.Partition.{fetch_loop, offset_behind}

pub IsFrom-take : (k n : ℕ) (rs : List DiskRecord) → IsFrom n rs → IsFrom n (take k rs)
IsFrom-take zero n rs f = tt
IsFrom-take (suc k) n [] f = tt
IsFrom-take (suc k) n (r ∷ rs) (f, fs) = (f, IsFrom-take k (n + 1) rs fs)

offset_behind-IsFrom :
    (current n : ℕ) (r : DiskRecord) (rs : List DiskRecord)
    → IsFrom n (r ∷ rs)
    → n + length (r ∷ rs) < 2 ^ 64
    → offset_behind current (r ∷ rs) ≡ n + length (r ∷ rs)
offset_behind-IsFrom current n r [] (f, fs) h = unfold offset_behind in omega (arith, f)
offset_behind-IsFrom current n r (q ∷ rs) (f, fs) h =
    last_of_more current r q rs
    ∙ offset_behind-IsFrom current (n + 1) q rs fs (omega arith)
    ∙ omega arith
  where
    last_of_more :
        (c : ℕ) (r q : DiskRecord) (rs : List DiskRecord)
        → offset_behind c (r ∷ q ∷ rs) ≡ offset_behind c (q ∷ rs)
    last_of_more c r q rs = unfold offset_behind in refl

module _ (lib : Codecs) where
  pub fetch_loop_zero :
      (ss : List LogSegment) (current : ℕ) (out : List DiskRecord)
      → fetch_loop lib ss current 0 out ≡ ok out
  unfolding fetch_loop
  fetch_loop_zero [] current out = refl
  fetch_loop_zero (s ∷ ss) current out = refl

  fetch_loop_empty :
      (s : LogSegment) (ss : List LogSegment) (current remaining : ℕ) (out : List DiskRecord)
      → read_batch lib s current remaining ≡ ok []
      → fetch_loop lib (s ∷ ss) current remaining out ≡ ok out
  unfolding fetch_loop
  fetch_loop_empty s ss current remaining out e = ground arith

  fetch_loop_more :
      (s : LogSegment) (ss : List LogSegment) (current remaining : ℕ) (out : List DiskRecord)
      (r : DiskRecord) (rs : List DiskRecord)
      → 0 < remaining
      → read_batch lib s current remaining ≡ ok (r ∷ rs)
      → fetch_loop lib (s ∷ ss) current remaining out
        ≡ fetch_loop lib ss
            (offset_behind current (r ∷ rs))
            (sub32 remaining (length (r ∷ rs) % 2 ^ 32))
            (out ++ r ∷ rs)
  unfolding fetch_loop
  fetch_loop_more s ss current remaining out r rs h e = ground arith

  pub fetch_loop_nil :
      (current remaining : ℕ) (out : List DiskRecord)
      → fetch_loop lib [] current remaining out ≡ ok out
  unfolding fetch_loop
  fetch_loop_nil current remaining out = refl

  -- One segment that yields `got`.
  pub fetch_loop_cases :
      (s : LogSegment) (ss : List LogSegment) (current remaining : ℕ) (out got : List DiskRecord)
      → read_batch lib s current remaining ≡ ok got
      → IsFrom current got
      → current + length got < 2 ^ 64
      → 0 < remaining
      → remaining < 2 ^ 32
      → length got ≤ remaining
      → ((got ≡ []) × (fetch_loop lib (s ∷ ss) current remaining out ≡ ok out))
        ⊎ (fetch_loop lib (s ∷ ss) current remaining out
            ≡ fetch_loop lib ss (current + length got) (remaining - length got) (out ++ got))
  fetch_loop_cases s ss current remaining out [] e f h p q l =
      inl (refl, fetch_loop_empty s ss current remaining out e)
  fetch_loop_cases s ss current remaining out (r ∷ rs) e f h p q l = inr (
      fetch_loop_more s ss current remaining out r rs p e
      ∙ ap (λ n. fetch_loop lib ss n (sub32 remaining (length (r ∷ rs) % 2 ^ 32)) (out ++ r ∷ rs))
          (offset_behind-IsFrom current current r rs f h)
      ∙ ap (λ n. fetch_loop lib ss (current + length (r ∷ rs)) n (out ++ r ∷ rs))
          {x = sub32 remaining (length (r ∷ rs) % 2 ^ 32)} {y = remaining - length (r ∷ rs)}
          (omega arith))
