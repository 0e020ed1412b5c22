-- ===== src/Protocol/Codec/Streams.antt =====
-- Many items in one buffer of protocol/src/codec.rs.
use gaffa.Prelude.{
  ℕ, suc, zero, ◌≤◌, ◌≡◌, refl, sym, ap, ◌∙◌, Option, none, some, List, [], ◌∷◌, ◌++◌, append_assoc,
  append-nil, length, All,
}
use gaffa.Prelude.Bytes.{Bytes}
use gaffa.Common.Error.{Result, ok, err, panic}
use gaffa.Protocol.Codec.{Bincode, BincodeLaws, Attempt, max_message_size, decode, encode}
use gaffa.Protocol.Codec.Framing.{decode-encode_frame}

module _ {T : Type 0} (bin : Bincode T) where
  -- The items are encoded one behind the other.
  abbrev pub encode_all : List T → Bytes → Bytes
  encode_all [] dst = dst
  encode_all (item ∷ items) dst = encode_all items (encode bin item dst).1

  step : (Bytes → List T × Bytes) → Result (Option T) × Bytes → List T × Bytes
  step again (ok (some item), rest) = (item ∷ (again rest).0, (again rest).1)
  step again (ok none, rest) = ([], rest)
  step again (err e, rest) = ([], rest)
  step again (panic, rest) = ([], rest)

  -- A reader that decodes until it has to wait, `n` times at most.
  unfoldable pub decode_all : ℕ → Bytes → List T × Bytes
  unfolding step
  decode_all zero src = ([], src)
  decode_all (suc n) src = step (decode_all n) (decode bin src)

  abbrev pub IsSendable : T → Type 0
  IsSendable item =
      (bytes : Bytes) × (bin.serialize item ≡ Attempt.done bytes)
      × (length bytes ≤ max_message_size)

  module _ (laws : BincodeLaws bin) where
    encode_all-append :
        (items : List T) (dst : Bytes)
        → All IsSendable items
        → encode_all items dst ≡ dst ++ encode_all items []
    encode_all-append [] dst s = sym (append-nil dst)
    encode_all-append (item ∷ items) dst ((bytes, e, small), s) =
        let (sent, written, whole, front) = decode-encode_frame bin laws item bytes e small in
        encode_all-append items (encode bin item dst).1 s
        ∙ ap (λ p. p.1 ++ encode_all items []) (written dst)
        ∙ append_assoc dst sent (encode_all items [])
        ∙ ap (λ p. dst ++ (p.1 ++ encode_all items [])) (sym (written []))
        ∙ ap (λ l. dst ++ l) (sym (encode_all-append items (encode bin item []).1 s))

    -- Items that were encoded one behind the other are decoded in their order, and what follows
    -- them in the buffer is left, if each is within the limit and bincode reads back what it has
    -- written.
    pub decode_all-encode_all :
        (items : List T) (rest : Bytes)
        → All IsSendable items
        → decode_all (length items) (encode_all items [] ++ rest) ≡ (items, rest)
    unfolding decode_all step
    decode_all-encode_all [] rest s = refl
    decode_all-encode_all (item ∷ items) rest ((bytes, e, small), s) =
        let (sent, written, whole, front) = decode-encode_frame bin laws item bytes e small in
        ap (λ l. step (decode_all (length items)) (decode bin (l ++ rest)))
          (encode_all-append items (encode bin item []).1 s
            ∙ ap (λ p. p.1 ++ encode_all items []) (written []))
        ∙ ap (λ l. step (decode_all (length items)) (decode bin l))
            (append_assoc sent (encode_all items []) rest)
        ∙ ap (step (decode_all (length items))) (whole (encode_all items [] ++ rest))
        ∙ ap (λ p. (item ∷ p.0, p.1)) (decode_all-encode_all items rest s)
