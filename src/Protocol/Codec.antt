-- ===== src/Protocol/Codec.antt =====
-- protocol/src/codec.rs: frames of a four-byte length and a payload in bincode's format. The bincode
-- crate is not in the repository: it is the parameter `Bincode`, with `BincodeLaws`.
pub mod Framing
pub mod Streams
use gaffa.Prelude.{
  ℕ, ◌+◌, ◌*◌, ◌%◌, ◌^◌, ◌<>◌, ◌≡◌, String, Option, none, some, ◌++◌, length, take, drop, ltb,
  if◌then◌else◌,
}
use gaffa.Prelude.Bytes.{Bytes, to_be, from_be}
use gaffa.Prelude.Decimal.{show}
use gaffa.Common.Error.{Result, ok, err, serialization, protocol}
use gaffa.Protocol.Messages.{Request, Response}

-- What a call of bincode ends with: its output, or the text of its error.
pub data Attempt {ℓ} (T : Type ℓ) : Type ℓ where
  done : T → Attempt T
  failed : String → Attempt T

pub record Bincode {ℓ} (T : Type ℓ) : Type ℓ where
  pub serialize : T → Attempt Bytes
  pub deserialize : Bytes → Attempt T

-- A value is read back from what was written for it.
pub record BincodeLaws {ℓ} {T : Type ℓ} (bin : Bincode T) : Type ℓ where
  pub inverse :
      (item : T) (bytes : Bytes)
      → bin.serialize item ≡ done bytes
      → bin.deserialize bytes ≡ done item

abbrev pub max_message_size : ℕ
max_message_size = 10 * 1024 * 1024

unfoldable pub too_large {ℓ} : {T : Type ℓ} → ℕ → Result T
too_large n = err (
    protocol
      ("Message too large: " <> show n <> " bytes (max: " <> show max_message_size <> " bytes)"))

module _ {ℓ} {T : Type ℓ} (bin : Bincode T) where
  -- The payload of a frame, and the buffer behind it.
  unfoldable pub deserialized : Bytes → Bytes → Result (Option T) × Bytes
  deserialized payload rest = elim (bin.deserialize payload) [
    | done item ↦ (ok (some item), rest)
    | failed e ↦ (err (serialization e), rest)
  ]

  -- `decode` on a buffer: the outcome, and the buffer that is left.
  unfoldable pub decode : Bytes → Result (Option T) × Bytes
  unfolding deserialized too_large
  decode src =
      let size = from_be (take 4 src) in
      if ltb (length src) 4
      then (ok none, src)
      else if ltb max_message_size size
      then (too_large size, src)
      else if ltb (length src) (4 + size)
      then (ok none, src)
      else deserialized (take size (drop 4 src)) (drop size (drop 4 src))

  -- `encode` of an item behind what the buffer holds.
  unfoldable pub encode : T → Bytes → Result (Unit {0}) × Bytes
  unfolding too_large
  encode item dst = elim (bin.serialize item) [
    | failed e ↦ (err (serialization e), dst)
    | done bytes ↦
        if ltb max_message_size (length bytes)
        then (too_large (length bytes), dst)
        else (ok tt, dst ++ (to_be 4 (length bytes % 2 ^ 32) ++ bytes))
  ]

-- `GaffaCodec`, the side of the server.
unfoldable pub server_decode : Bincode Request → Bytes → Result (Option Request) × Bytes
unfolding decode
server_decode bin src = decode bin src

unfoldable pub server_encode : Bincode Response → Response → Bytes → Result (Unit {0}) × Bytes
unfolding encode
server_encode bin item dst = encode bin item dst

-- `ClientCodec`, the side of the client.
unfoldable pub client_encode : Bincode Request → Request → Bytes → Result (Unit {0}) × Bytes
unfolding encode
client_encode bin item dst = encode bin item dst

unfoldable pub client_decode : Bincode Response → Bytes → Result (Option Response) × Bytes
unfolding decode
client_decode bin src = decode bin src
