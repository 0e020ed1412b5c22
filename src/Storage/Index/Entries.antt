-- ===== src/Storage/Index/Entries.antt =====
-- The entries that an index file holds, and `append` on them.
use gaffa.Prelude.{
  ℕ, zero, suc, ◌+◌, ◌*◌, ◌^◌, ◌<◌, ◌≡◌, refl, sym, ap, ◌∙◌, Option, none, some, List, [], ◌∷◌,
  ◌++◌, append-nil, append_assoc, arith, length, get_elem?, take, All, All-append, length-append,
  take_all, drop_all, take-append_length, drop-append_add,
}
use mathlib.Core.Option.{some-injective}
use gaffa.Prelude.Bytes.{Bytes, to_be, length-to_be, from_be-to_be}
use gaffa.Common.Error.{ok}
use gaffa.Storage.File.{File, write_all}
use gaffa.Storage.Index.{
  OffsetIndex, create, append, read_u64, read_offset_at, read_position_at, mapped,
}

-- An entry: a logical offset and a position in the log file.
abbrev pub Entry : Type 0
Entry = ℕ × ℕ

abbrev pub IsEntry : Entry → Type 0
IsEntry e = (e.0 < 2 ^ 64) × (e.1 < 2 ^ 64)

abbrev pub entry_bytes : Entry → Bytes
entry_bytes e = to_be 8 e.0 ++ to_be 8 e.1

abbrev pub entries_bytes : List Entry → Bytes
entries_bytes [] = []
entries_bytes (e ∷ es) = entry_bytes e ++ entries_bytes es

pub length-entry_bytes : (e : Entry) → length (entry_bytes e) ≡ 16
length-entry_bytes e =
    omega (arith, length-append (to_be 8 e.0) (to_be 8 e.1), length-to_be 8 e.0, length-to_be 8 e.1)

pub length-entries_bytes : (es : List Entry) → length (entries_bytes es) ≡ 16 * length es
length-entries_bytes [] = refl
length-entries_bytes (e ∷ es) = omega (
  arith,
  length-append (entry_bytes e) (entries_bytes es),
  length-entry_bytes e,
  length-entries_bytes es,
)

pub entries_bytes-append :
    (es more : List Entry) → entries_bytes (es ++ more) ≡ entries_bytes es ++ entries_bytes more
entries_bytes-append [] more = refl
entries_bytes-append (e ∷ es) more =
    rw (entries_bytes-append es more)
      (sym (append_assoc (entry_bytes e) (entries_bytes es) (entries_bytes more)))

-- The index finds these entries: its map holds them, and `size` counts them.
pub record Reads (idx : OffsetIndex) (es : List Entry) : Type 0 where
  pub size : idx.size ≡ length es
  pub mmap : 0 < length es → idx.mmap ≡ some (entries_bytes es)
  pub valid : All IsEntry es

-- It is moreover open for appending behind them.
pub record Holds (idx : OffsetIndex) (es : List Entry) : Type 0 where
  pub reads : Reads idx es
  pub open reads use *
  pub contents : idx.file.contents ≡ entries_bytes es
  pub cursor : idx.file.cursor ≡ 16 * length es

pub create-Holds : Holds (create none) []
unfolding create
create-Holds = record {
  reads = record { size = refl; mmap = λ h. absurd (omega arith); valid = tt };
  contents = refl;
  cursor = refl;
}

-- Writing at the end of a file appends.
pub write_all-end :
    (f : File) (bytes : Bytes)
    → f.cursor ≡ length f.contents
    → (write_all f bytes).contents ≡ f.contents ++ bytes
unfolding write_all
write_all-end f bytes h = rw (
  h,
  take_all (length f.contents) f.contents (omega arith),
  drop_all (length f.contents + length bytes) f.contents (omega arith),
  append-nil,
)

pub mapped_nonempty :
    (bytes : Bytes) (before : Option Bytes) → 0 < length bytes → mapped bytes before ≡ some bytes
mapped_nonempty bytes before h = ground arith

module _ (idx : OffsetIndex) (es : List Entry) (offset position : ℕ) (h : Holds idx es) where
  abbrev grown : List Entry
  grown = es ++ (offset, position) ∷ []

  append_contents : (append idx offset position).file.contents ≡ entries_bytes grown
  unfolding append
  append_contents =
      write_all-end idx.file (entry_bytes (offset, position))
        (omega (arith, h.cursor, length-entries_bytes es, ap length h.contents))
      ∙ rw (h.contents, entries_bytes-append es ((offset, position) ∷ []), append-nil)

  file_length : length (append idx offset position).file.contents ≡ 16 * length es + 16
  file_length = omega (
    arith,
    ap length append_contents,
    length-entries_bytes grown,
    length-append es ((offset, position) ∷ []),
  )

  append_mmap : (append idx offset position).mmap ≡ some (append idx offset position).file.contents
  unfolding append
  append_mmap = mapped_nonempty _ _ (omega (arith, file_length))

  append_cursor : (append idx offset position).file.cursor ≡ 16 * length es + 16
  unfolding append write_all
  append_cursor = omega (arith, h.cursor, length-entry_bytes (offset, position))

  append_size : (append idx offset position).size ≡ length es + 1
  unfolding append
  append_size = omega (arith, h.size)

  -- `append` to an index that holds entries and is open behind them adds the entry at the end, in
  -- the file and in the map, if its numbers are below 2 ^ 64.
  pub append-Holds_entries : IsEntry (offset, position) → Holds (append idx offset position) grown
  append-Holds_entries v = record {
    reads = record {
      size = omega (arith, append_size, length-append es ((offset, position) ∷ []));
      mmap = λ p. append_mmap ∙ ap some append_contents;
      valid = All-append IsEntry es ((offset, position) ∷ []) h.valid (v, tt);
    };
    contents = append_contents;
    cursor = omega (arith, append_cursor, length-append es ((offset, position) ∷ []));
  }

-- Reading inside a suffix.
read_u64-append :
    (front back : Bytes) (k : ℕ) → read_u64 (front ++ back) (length front + k) ≡ read_u64 back k
unfolding read_u64
read_u64-append front back k =
    ground (arith, length-append front back, drop-append_add front back k)

read_u64-to_be : (n : ℕ) (rest : Bytes) → n < 2 ^ 64 → read_u64 (to_be 8 n ++ rest) 0 ≡ ok n
unfolding read_u64
read_u64-to_be n rest h = ground (
  arith,
  length-append (to_be 8 n) rest,
  length-to_be 8 n,
  ap (λ k. take k (to_be 8 n ++ rest)) (length-to_be 8 n),
  take-append_length (to_be 8 n) rest,
  from_be-to_be 8 n h,
)

module _ (d : Entry) (bs : Bytes) where
  read_u64-skip : (k pos : ℕ) → pos ≡ 16 + k → read_u64 (entry_bytes d ++ bs) pos ≡ read_u64 bs k
  read_u64-skip k pos e =
      ap (read_u64 (entry_bytes d ++ bs)) (omega (arith, e, length-entry_bytes d))
      ∙ read_u64-append (entry_bytes d) bs k

  read_u64-first : d.0 < 2 ^ 64 → read_u64 (entry_bytes d ++ bs) 0 ≡ ok d.0
  read_u64-first h = rw append_assoc (read_u64-to_be d.0 (to_be 8 d.1 ++ bs) h)

  read_u64-second : d.1 < 2 ^ 64 → read_u64 (entry_bytes d ++ bs) 8 ≡ ok d.1
  read_u64-second h = rw append_assoc (
      ap (read_u64 (to_be 8 d.0 ++ (to_be 8 d.1 ++ bs))) (omega (arith, length-to_be 8 d.0))
      ∙ read_u64-append (to_be 8 d.0) (to_be 8 d.1 ++ bs) 0
      ∙ read_u64-to_be d.1 bs h)

-- The two halves of entry `i`, as `read_offset_at` and `read_position_at` slice them.
read_u64-entries :
    (es : List Entry) (i : ℕ) (e : Entry)
    → All IsEntry es
    → get_elem? es i ≡ some e
    → (read_u64 (entries_bytes es) (i * 16) ≡ ok e.0)
      × (read_u64 (entries_bytes es) (i * 16 + 8) ≡ ok e.1)
read_u64-entries [] i e v g = cc
read_u64-entries (d ∷ es) zero e (vd, v) g = (
  read_u64-first d (entries_bytes es) vd.0 ∙ ap (λ t. ok t.0) (some-injective d e g),
  read_u64-second d (entries_bytes es) vd.1 ∙ ap (λ t. ok t.1) (some-injective d e g),
)
read_u64-entries (d ∷ es) (suc i) e (vd, v) g =
    let (p, q) = read_u64-entries es i e v g in
    (
      read_u64-skip d (entries_bytes es) (i * 16) (suc i * 16) (omega arith) ∙ p,
      read_u64-skip d (entries_bytes es) (i * 16 + 8) (suc i * 16 + 8) (omega arith) ∙ q,
    )

pub read_offset_at-entries :
    (es : List Entry) (i : ℕ) (e : Entry)
    → All IsEntry es
    → get_elem? es i ≡ some e
    → read_offset_at (entries_bytes es) i ≡ ok e.0
unfolding read_offset_at
read_offset_at-entries es i e v g = (read_u64-entries es i e v g).0

pub read_position_at-entries :
    (es : List Entry) (i : ℕ) (e : Entry)
    → All IsEntry es
    → get_elem? es i ≡ some e
    → read_position_at (entries_bytes es) i ≡ ok e.1
unfolding read_position_at
read_position_at-entries es i e v g = (read_u64-entries es i e v g).1
