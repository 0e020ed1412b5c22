-- ===== src/Storage/Index/Reopen.antt =====
-- An index that `open` has read back: lookups find what was written, and `append` writes over the
-- first entry.
use gaffa.Prelude.{
  ℕ, ◌+◌, ◌*◌, ◌<◌, ◌≡◌, ap, ◌∙◌, none, List, ◌∷◌, ◌++◌, arith, length, drop, drop-append_length,
  All,
}
use gaffa.Prelude.Bytes.{Bytes}
use gaffa.Storage.File.{opened, write_all}
use gaffa.Storage.Index.{open_existing, append}
use gaffa.Storage.Index.Entries.{
  Entry, IsEntry, Reads, mapped_nonempty, entry_bytes, entries_bytes, length-entry_bytes,
  length-entries_bytes,
}

-- Reading back the file of an index finds the entries that it holds.
pub open_existing-Reads :
    (es : List Entry) → All IsEntry es → Reads (open_existing (entries_bytes es)) es
unfolding open_existing
open_existing-Reads es valid = record {
  size = omega (arith, length-entries_bytes es);
  mmap = λ h. mapped_nonempty (entries_bytes es) none (omega (arith, length-entries_bytes es));
  valid = valid;
}

overwrite :
    (e : Entry) (es : List Entry) (new : Bytes)
    → length new ≡ 16
    → (write_all (opened (entries_bytes (e ∷ es))) new).contents ≡ new ++ entries_bytes es
unfolding write_all
overwrite e es new h =
    ap (λ k. new ++ drop k (entries_bytes (e ∷ es))) {x = 0 + length new}
      {y = length (entry_bytes e)} (omega (arith, h, length-entry_bytes e))
    ∙ ap (λ t. new ++ t) (drop-append_length (entry_bytes e) (entries_bytes es))

-- After a restart the first `append` replaces the first entry instead of adding one: the file keeps
-- its length while `size` grows by one, so the index counts an entry that its file does not hold.
pub append-open_existing :
    (e : Entry) (es : List Entry) (offset position : ℕ)
    → let idx = append (open_existing (entries_bytes (e ∷ es))) offset position in
      (idx.file.contents ≡ entries_bytes ((offset, position) ∷ es))
      × (idx.size ≡ length (e ∷ es) + 1)
      × (length idx.file.contents < 16 * idx.size)
unfolding append open_existing
append-open_existing e es offset position =
    let new =
      overwrite e es (entry_bytes (offset, position)) (length-entry_bytes (offset, position)) in
    let n = length-entries_bytes (e ∷ es) in
    (
      new,
      omega (arith, n),
      omega (arith, n, length-entries_bytes ((offset, position) ∷ es), ap length new),
    )
