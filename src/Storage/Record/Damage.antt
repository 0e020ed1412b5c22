-- ===== src/Storage/Record/Damage.antt =====
-- `decode` of storage/src/record.rs on damaged and torn input, and how much it takes of its reader.
use gaffa.Prelude.{
  ℕ, ◌+◌, ◌-◌, ◌^◌, ◌≤◌, ◌<◌, ◌<>◌, String, ◌≡◌, ◌≢◌, refl, sym, ap, ◌∙◌, inl, inr, ◌∷◌, ◌++◌,
  arith, length, length-append, append_split, le_cases,
}
use gaffa.Prelude.Bytes.{
  Bytes, to_be, length-to_be, from_be, from_be-to_be, read_exact_short, length-read_exact,
}
use gaffa.Prelude.Decimal.{show}
use gaffa.Common.Error.{Result, ok, err, storage, corruption, ◌>>=◌, >>=-eq-ok, ok_inj}
use gaffa.Storage.Compression.{Codecs, compress}
use gaffa.Storage.Record.{
  DiskRecord, payload, read_field, encode, parse_payload, data_length, check_crc, decode,
}
use gaffa.Storage.Record.RoundTrip.{
  Fits, length-payload, frame_shape, encode-frame, read_field-to_be, data_length_lem, decode-header,
}

read_field-length :
    (what : String) (k : ℕ) (bs : Bytes) (p : Bytes × Bytes)
    → read_field what k bs ≡ ok p
    → length p.1 + k ≡ length bs
unfolding read_field
read_field-length what k bs p h = ground (arith, length-read_exact k bs p)

pub read_field_short :
    (what : String) (k : ℕ) (bs : Bytes)
    → length bs < k
    → (text : String) × (read_field what k bs ≡ err (storage text))
unfolding read_field
read_field_short what k bs h = (
  "Failed to read " <> what <> ": failed to fill whole buffer",
  ground (arith, read_exact_short k bs),
)

ok_snd {ℓ κ} :
    {A : Type ℓ} {B : Type κ} {a c : A} {b d : B}
    → ◌≡◌ {A = Result (A × B)} (ok (a, b)) (ok (c, d))
    → b ≡ d
ok_snd h = cc

-- A decoded record took at least the sixteen bytes of its header.
pub decode-shrinks :
    (lib : Codecs) (bs rest : Bytes) (r : DiskRecord)
    → decode lib bs ≡ ok (r, rest)
    → length rest + 16 ≤ length bs
unfolding decode
decode-shrinks lib bs rest r h =
    let (p1, e1, h1) = >>=-eq-ok (read_field "offset" 8 bs) _ h in
    let (p2, e2, h2) = >>=-eq-ok (read_field "length" 4 p1.1) _ h1 in
    let (p3, e3, h3) = >>=-eq-ok (read_field "CRC" 4 p2.1) _ h2 in
    let (n, e4, h4) = >>=-eq-ok (data_length (from_be p2.0)) _ h3 in
    let (p5, e5, h5) = >>=-eq-ok (read_field "record data" n p3.1) _ h4 in
    let (c, e6, h6) = >>=-eq-ok (check_crc lib (from_be p1.0) (from_be p3.0) p5.0) _ h5 in
    let (q, e7, h7) = >>=-eq-ok (parse_payload lib (from_be p1.0) p5.0) _ h6 in
    omega (
      arith,
      read_field-length "offset" 8 bs p1 e1,
      read_field-length "length" 4 p1.1 p2 e2,
      read_field-length "CRC" 4 p2.1 p3 e3,
      read_field-length "record data" n p3.1 p5 e5,
      ap length (ok_snd h7),
    )

check_crc_differs :
    (lib : Codecs) (offset crc : ℕ) (bytes : Bytes)
    → lib.crc32 bytes ≢ crc
    → (text : String) × (check_crc lib offset crc bytes ≡ err (corruption text))
unfolding check_crc
check_crc_differs lib offset crc bytes h = (
  "CRC mismatch at offset "
      <> show offset
      <> ": expected "
      <> show crc
      <> ", got "
      <> show (lib.crc32 bytes),
  ground arith,
)

-- In front of a payload stands a header with its length and a checksum that is not the payload's:
-- the record is refused as corrupt, whatever the payload holds, if the numbers fit their fields.
pub decode_corrupt :
    (lib : Codecs) (offset crc : ℕ) (bytes rest : Bytes)
    → offset < 2 ^ 64
    → crc < 2 ^ 32
    → 4 + length bytes < 2 ^ 32
    → lib.crc32 bytes ≢ crc
    → (text : String) × (decode lib
          (to_be 8 offset ++ (to_be 4 (4 + length bytes) ++ (to_be 4 crc ++ (bytes ++ rest))))
        ≡ err (corruption text))
decode_corrupt lib offset crc bytes rest ho hc hb h =
    let (text, e) = check_crc_differs lib offset crc bytes h in
    (text, rw (decode-header lib offset crc bytes rest ho hc hb, e))

abbrev FailsToRead {ℓ} : {A : Type ℓ} → Result A → Type ℓ
FailsToRead m = (text : String) × (m ≡ err (storage text))

-- Reading a number from a reader that was cut somewhere.
field_torn {ℓ} :
    {A : Type ℓ} (what : String) (k n : ℕ) (ys front back : Bytes) (x : ℕ)
    (f : Bytes × Bytes → Result A)
    → to_be k n ++ ys ≡ front ++ (x ∷ back)
    → ((mid : Bytes) → ys ≡ mid ++ (x ∷ back) → FailsToRead (f (to_be k n, mid)))
    → FailsToRead (read_field what k front >>= f)
field_torn what k n ys front back x f e next = elim (le_cases k (length front)) [
  | inr short ↦ let (t, p) = read_field_short what k front short in (t, rw p)
  | inl long ↦
      let (mid, p, q) =
        append_split (to_be k n) ys front (x ∷ back) e (omega (arith, length-to_be k n)) in
      rw (p, read_field-to_be what k n mid) (next mid q)
]

-- A proper front of a frame never decodes: the reader ends too early, and `decode` says so.
decode-torn :
    (lib : Codecs) (offset crc : ℕ) (bytes front back : Bytes) (x : ℕ)
    → 4 + length bytes < 2 ^ 32
    → to_be 8 offset ++ (to_be 4 (4 + length bytes) ++ (to_be 4 crc ++ bytes)) ≡ front ++ (x ∷ back)
    → FailsToRead (decode lib front)
unfolding decode
decode-torn lib offset crc bytes front back x hb e =
    field_torn "offset" 8 offset _ front back x _ e λ m1 q1.
      field_torn "length" 4 (4 + length bytes) _ m1 back x _ q1 λ m2 q2.
        field_torn "CRC" 4 crc _ m2 back x _ q2 λ m3 q3.
          rw
            (
              from_be-to_be 4 (4 + length bytes) hb,
              data_length_lem (4 + length bytes) (omega arith),
              (read_field_short "record data" (4 + length bytes - 4) m3 (shorter m3 q3)).1,
            )
            (_, refl)
  where
    shorter : (m : Bytes) → bytes ≡ m ++ (x ∷ back) → length m < 4 + length bytes - 4
    shorter m q = omega (arith, ap length q, length-append m (x ∷ back))

-- A torn write is noticed: of what `encode` produced, every proper front fails to decode with a
-- storage error, if the value is compressed without an error and the record fits the format.
pub decode_torn :
    (lib : Codecs) (r : DiskRecord) (value bytes front back : Bytes) (x : ℕ)
    → compress lib r.value r.compression ≡ ok value
    → Fits r value
    → encode lib r ≡ ok bytes
    → bytes ≡ front ++ (x ∷ back)
    → (text : String) × (decode lib front ≡ err (storage text))
decode_torn lib r value bytes front back x hc fits he e =
    decode-torn lib r.offset (lib.crc32 (payload r value)) (payload r value) front back x
      (omega (arith, length-payload r value, fits.body))
      (sym (frame_shape lib r value fits) ∙ ok_inj (sym (encode-frame lib r value hc) ∙ he) ∙ e)
