-- ===== src/Common/Error.antt =====
-- common/src/error.rs, and the outcome of a fallible call.
use gaffa.Prelude.{ℕ, String, ◌<>◌, ◌≡◌, refl}
use gaffa.Prelude.Decimal.{show}

-- The variants of `GaffaError`. `io` carries the text of the `std::io::Error`.
pub data GaffaError : Type 0 where
  io : String → GaffaError
  serialization : String → GaffaError
  topic_not_found : String → GaffaError
  partition_not_found : String → ℕ → GaffaError
  invalid_offset : ℕ → GaffaError
  protocol : String → GaffaError
  connection : String → GaffaError
  invalid_message : String → GaffaError
  storage : String → GaffaError
  corruption : String → GaffaError
  segment_not_found : String → GaffaError
  group_not_found : String → GaffaError
  consumer_not_found : String → GaffaError
  compression : String → GaffaError

-- `Display`: the text that a client gets to see.
unfoldable pub to_string : GaffaError → String
to_string (io e) = "IO error: " <> e
to_string (serialization e) = "Serialization error: " <> e
to_string (topic_not_found e) = "Topic not found: " <> e
to_string (partition_not_found topic partition) =
    "Partition not found: topic=" <> topic <> ", partition=" <> show partition
to_string (invalid_offset offset) = "Invalid offset: " <> show offset
to_string (protocol e) = "Protocol error: " <> e
to_string (connection e) = "Connection error: " <> e
to_string (invalid_message e) = "Invalid message: " <> e
to_string (storage e) = "Storage error: " <> e
to_string (corruption e) = "Data corruption detected: " <> e
to_string (segment_not_found e) = "Segment not found: " <> e
to_string (group_not_found e) = "Consumer group not found: " <> e
to_string (consumer_not_found e) = "Consumer not found: " <> e
to_string (compression e) = "Compression error: " <> e

-- Rust's `Result<T, GaffaError>`, and a panic of the thread as a third outcome.
pub data Result {ℓ} (T : Type ℓ) : Type ℓ where
  panic : Result T
  err : GaffaError → Result T
  ok : T → Result T

-- `?` of the source.
infixl 5 ◌>>=◌
abbrev pub ◌>>=◌ {κ ℓ} :
    {T : Type κ} {U : Type ℓ} (outcome : Result T) (next : T → Result U) → Result U
panic >>= next = panic
(err problem) >>= next = err problem
(ok value) >>= next = next value

-- Inversion of a chain that succeeds.
pub >>=-eq-ok {κ ℓ} :
    {T : Type κ} {U : Type ℓ} {u : U} (outcome : Result T) (next : T → Result U)
    → (outcome >>= next) ≡ ok u
    → (t : T) × (outcome ≡ ok t) × (next t ≡ ok u)
>>=-eq-ok panic next run = cc
>>=-eq-ok (err problem) next run = cc
>>=-eq-ok (ok value) next run = (value, refl, run)

pub ok_inj {ℓ} : {T : Type ℓ} {t u : T} → ok t ≡ ok u → t ≡ u
ok_inj same = cc
