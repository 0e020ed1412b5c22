-- ===== src/Storage/Examples/Fixtures.antt =====
-- Codecs that meet the laws, with no compression at all and a checksum that adds the bytes, and the
-- messages and records of the examples.
use gaffa.Prelude.{ℕ, ◌+◌, ◌%◌, ◌^◌, refl, sym, some, [], ◌∷◌, arith}
use gaffa.Prelude.Bytes.{Bytes}
use gaffa.Storage.Compression.{Codecs, CodecLaws, CompressionType, output}
use gaffa.Storage.Record.{DiskRecord}
use gaffa.Storage.Record.RoundTrip.{Fits}

abbrev pub sum : Bytes → ℕ
sum [] = 0
sum (b ∷ bs) = b + sum bs

abbrev pub plain : Codecs
plain = record {
  crc32 = λ bs. sum bs % 2 ^ 32;
  gzip_encode = output;
  gzip_decode = output;
  snappy_encode = output;
  snappy_decode = output;
  lz4_encode = λ bs. bs;
  lz4_decode = output;
}

pub plain-CodecLaws : CodecLaws plain
plain-CodecLaws = record {
  crc32_bound = λ bs. omega arith;
  gzip_inverse = λ bs out h. sym h;
  snappy_inverse = λ bs out h. sym h;
  lz4_inverse = λ bs. refl;
}

-- A record with a key, compressed.
abbrev pub order : DiskRecord
order = record {
  offset = 5;
  timestamp = 1700000000;
  key = some (1 ∷ []);
  value = 7 ∷ 8 ∷ [];
  compression = CompressionType.lz4;
}

pub order-Fits : Fits order (7 ∷ 8 ∷ [])
order-Fits = record {
  offset = omega arith;
  timestamp = omega arith;
  key = omega arith;
  body = omega arith;
}
