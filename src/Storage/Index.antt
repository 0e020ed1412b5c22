-- ===== src/Storage/Index.antt =====
-- storage/src/index.rs: the offset index, a file of sixteen-byte entries read through a memory map.
pub mod Entries
pub mod Lookup
pub mod Reopen
use gaffa.Prelude.{
  ℕ, zero, suc, ◌+◌, ◌*◌, ◌/◌, ◌≤◌, Bool, Option, none, some, ◌++◌, length, take, drop, ltb, leb,
  ◌==◌, if◌then◌else◌,
}
use gaffa.Prelude.Bytes.{Bytes, to_be, from_be}
use gaffa.Common.Error.{Result, ok, panic, ◌>>=◌}
use gaffa.Storage.File.{File, opened, open_or_create, write_all}

abbrev pub index_entry_size : ℕ
index_entry_size = 16

pub record OffsetIndex : Type 0 where
  pub file : File
  pub mmap : Option Bytes
  pub size : ℕ

-- The argument is what the path holds already, if it exists.
unfoldable pub create : Option Bytes → OffsetIndex
create there = record { file = open_or_create there; mmap = none; size = 0 }

-- A map of the file as it is, and no map of an empty file.
abbrev pub mapped : Bytes → Option Bytes → Option Bytes
mapped bytes before = if ltb 0 (length bytes) then some bytes else before

unfoldable pub open_existing : Bytes → OffsetIndex
open_existing bytes = record {
  file = opened bytes;
  mmap = mapped bytes none;
  size = length bytes / index_entry_size;
}

unfoldable pub remap : OffsetIndex → OffsetIndex
remap idx = record idx { mmap = mapped idx.file.contents idx.mmap }

unfoldable pub append : OffsetIndex → ℕ → ℕ → OffsetIndex
unfolding remap
append idx offset position =
    let file = write_all idx.file (to_be 8 offset ++ to_be 8 position) in
    remap (record idx { file = file; size = idx.size + 1 })

-- `mmap[pos..pos + 8]` as a u64; a slice past the end panics.
unfoldable pub read_u64 : Bytes → ℕ → Result ℕ
read_u64 mmap pos =
    if leb (pos + 8) (length mmap) then ok (from_be (take 8 (drop pos mmap))) else panic

unfoldable pub read_offset_at : Bytes → ℕ → Result ℕ
unfolding read_u64
read_offset_at mmap index = read_u64 mmap (index * index_entry_size)

unfoldable pub read_position_at : Bytes → ℕ → Result ℕ
unfolding read_u64
read_position_at mmap index = read_u64 mmap (index * index_entry_size + 8)

-- The binary search. Each round makes `right - left` smaller, so fuel `right - left` is enough.
unfoldable pub lookup_loop : ℕ → Bytes → ℕ → ℕ → ℕ → Option ℕ → Result (Option ℕ)
lookup_loop zero mmap target left right result = ok result
lookup_loop (suc fuel) mmap target left right result =
    let mid = (left + right) / 2 in
    let upper = λ (p : ℕ). lookup_loop fuel mmap target (mid + 1) right (some p) in
    let lower = lookup_loop fuel mmap target left mid result in
    if ltb left right
    then (do
      entry_offset ← read_offset_at mmap mid
      if leb entry_offset target
          then (do position ← read_position_at mmap mid; upper position)
          else lower)
    else ok result

unfoldable pub lookup : OffsetIndex → ℕ → Result (Option ℕ)
unfolding lookup_loop
lookup idx target = if idx.size == 0 then ok none else (elim idx.mmap [
  | none ↦ ok none
  | some mmap ↦ lookup_loop idx.size mmap target 0 idx.size none
])
