-- ===== src/Storage/File.antt =====
-- `std::fs::File` as the storage uses it: the bytes and the cursor. Every call succeeds.
use gaffa.Prelude.{ℕ, ◌+◌, Option, none, some, [], ◌++◌, length, take, drop}
use gaffa.Prelude.Bytes.{Bytes}

pub record File : Type 0 where
  pub contents : Bytes
  pub cursor : ℕ

-- Opening puts the cursor at the beginning; the storage never truncates.
abbrev pub opened : Bytes → File
opened bytes = record { contents = bytes; cursor = 0 }

-- `create(true)`: a file that is not there is made empty.
abbrev pub open_or_create : Option Bytes → File
open_or_create none = opened []
open_or_create (some bytes) = opened bytes

-- Bytes are written over what stands behind the cursor, which is never past the end.
unfoldable pub write_all : File → Bytes → File
write_all f bytes = record {
  contents = take f.cursor f.contents ++ (bytes ++ drop (f.cursor + length bytes) f.contents);
  cursor = f.cursor + length bytes;
}

unfoldable pub seek_end : File → File
seek_end f = record f { cursor = length f.contents }
