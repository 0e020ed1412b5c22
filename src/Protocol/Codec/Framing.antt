-- ===== src/Protocol/Codec/Framing.antt =====
-- What one side of protocol/src/codec.rs has written, the other side reads.
use gaffa.Prelude.{
  ℕ, ◌%◌, ◌^◌, ◌≤◌, ◌<◌, ◌≡◌, refl, sym, ap, ◌∙◌, none, some, [], ◌∷◌, ◌++◌, append_assoc,
  append-nil, arith, length, length-append, ltb, if◌then◌else◌, take, drop, take-append_length,
  drop-append_length, append_split, take-append-drop, take_all, length-drop, le_cases, inl, inr,
}
use gaffa.Prelude.Bytes.{Bytes, to_be, length-to_be, from_be-to_be}
use gaffa.Common.Error.{ok}
use gaffa.Protocol.Messages.{Request, Response}
use gaffa.Protocol.Codec.{
  Bincode, BincodeLaws, Attempt, max_message_size, too_large, decode, deserialized, encode,
  server_decode, server_encode, client_encode, client_decode,
}

module _ {T : Type 0} (bin : Bincode T) where
  encode_small :
      (item : T) (dst bytes : Bytes)
      → bin.serialize item ≡ Attempt.done bytes
      → length bytes ≤ max_message_size
      → encode bin item dst ≡ (ok tt, dst ++ (to_be 4 (length bytes) ++ bytes))
  unfolding encode
  encode_small item dst bytes e h = ground (
    arith,
    ap (λ n. dst ++ (to_be 4 n ++ bytes)) {x = length bytes % 2 ^ 32} {y = length bytes}
        (omega arith),
  )

  -- What `decode` does on a buffer that starts with a length.
  decode_header :
      (size : ℕ) (src : Bytes)
      → size < 2 ^ 32
      → decode bin (to_be 4 size ++ src) ≡ (
          if ltb max_message_size size
          then (too_large size, to_be 4 size ++ src)
          else if ltb (length src) size
          then (ok none, to_be 4 size ++ src)
          else deserialized bin (take size src) (drop size src))
  unfolding decode too_large
  decode_header size src h =
      let front =
        ap (λ k. take k (to_be 4 size ++ src)) (sym (length-to_be 4 size))
        ∙ take-append_length (to_be 4 size) src in
      let back =
        ap (λ k. drop k (to_be 4 size ++ src)) (sym (length-to_be 4 size))
        ∙ drop-append_length (to_be 4 size) src in
      rw (front, back, from_be-to_be 4 size h)
        (ground (arith, length-append (to_be 4 size) src, length-to_be 4 size))

  decode_short : (src : Bytes) → length src < 4 → decode bin src ≡ (ok none, src)
  unfolding decode
  decode_short src h = ground arith

  module _ (laws : BincodeLaws bin) (item : T) (bytes : Bytes)
      (e : bin.serialize item ≡ Attempt.done bytes) (small : length bytes ≤ max_message_size) where
    abbrev frame : Bytes
    frame = to_be 4 (length bytes) ++ bytes

    decode_whole : (rest : Bytes) → decode bin (frame ++ rest) ≡ (ok (some item), rest)
    unfolding deserialized
    decode_whole rest =
        ap (decode bin) (append_assoc (to_be 4 (length bytes)) bytes rest)
        ∙ decode_header (length bytes) (bytes ++ rest) (omega arith)
        ∙ ground (
          arith,
          length-append bytes rest,
          take-append_length bytes rest,
          drop-append_length bytes rest,
          laws.inverse item bytes e,
        )

    -- The header is there, and a part of the payload.
    decode_part :
        (part : Bytes)
        → length part < length bytes
        → decode bin (to_be 4 (length bytes) ++ part) ≡ (ok none, to_be 4 (length bytes) ++ part)
    decode_part part h = decode_header (length bytes) part (omega arith) ∙ ground arith

    decode_front :
        (front back : Bytes) (x : ℕ)
        → frame ≡ front ++ (x ∷ back)
        → decode bin front ≡ (ok none, front)
    decode_front front back x h = elim (le_cases 4 (length front)) [
      | inr short ↦ decode_short front short
      | inl long ↦
          let (mid, p, q) =
            append_split (to_be 4 (length bytes)) bytes front (x ∷ back) h
              (omega (arith, length-to_be 4 (length bytes))) in
          ap (decode bin) p
          ∙ decode_part mid (omega (arith, ap length q, length-append mid (x ∷ back)))
          ∙ ap (λ l. (ok none, l)) (sym p)
    ]

    -- A reader that has the first `k` bytes of the frame.
    decode_cut :
        (k : ℕ)
        → decode bin (take k frame)
          ≡ (if ltb k (length frame) then (ok none, take k frame) else (ok (some item), []))
    decode_cut k = elim (le_cases (length frame) k) [
      | inl all ↦
          ap (decode bin) (take_all k frame all ∙ sym (append-nil frame))
          ∙ decode_whole []
          ∙ ground arith
      | inr cut ↦ go (drop k frame) refl cut
    ]
      where
        go :
            (back : Bytes)
            → drop k frame ≡ back
            → k < length frame
            → decode bin (take k frame)
              ≡ (if ltb k (length frame) then (ok none, take k frame) else (ok (some item), []))
        go [] h cut = absurd (omega (arith, length-drop k frame, ap length h))
        go (x ∷ back) h cut =
            decode_front (take k frame) back x
              (sym (take-append-drop k frame) ∙ ap (λ l. take k frame ++ l) h)
            ∙ ground arith

  -- A frame that is written behind what a buffer holds is read back whole when it comes to the
  -- front, with the bytes behind it left over; and while a part of it is missing, the reader waits
  -- and keeps what it has: if the item's bytes, as bincode gives them, are within the limit and
  -- bincode reads back what it has written.
  pub decode-encode_frame :
      (laws : BincodeLaws bin) (item : T) (bytes : Bytes)
      → bin.serialize item ≡ Attempt.done bytes
      → length bytes ≤ max_message_size
      → (sent : Bytes) × ((dst : Bytes) → encode bin item dst ≡ (ok tt, dst ++ sent))
        × ((rest : Bytes) → decode bin (sent ++ rest) ≡ (ok (some item), rest))
        × ((k : ℕ)
            → decode bin (take k sent)
              ≡ (if ltb k (length sent) then (ok none, take k sent) else (ok (some item), [])))
  decode-encode_frame laws item bytes e small = (
    frame laws item bytes e small,
    λ dst. encode_small item dst bytes e small,
    decode_whole laws item bytes e small,
    decode_cut laws item bytes e small,
  )

-- What `client_encode` writes of a request, `server_decode` reads back; and what `server_encode`
-- writes of a response, `client_decode` reads back: with the bytes behind it left over, if the
-- bytes that bincode gives are within the limit and bincode reads back what it has written.
pub server_decode-client_encode :
    (req : Bincode Request) (res : Bincode Response)
    → BincodeLaws req
    → BincodeLaws res
    → (request : Request) (response : Response) (bytes payload rest : Bytes)
    → req.serialize request ≡ Attempt.done bytes
    → res.serialize response ≡ Attempt.done payload
    → length bytes ≤ max_message_size
    → length payload ≤ max_message_size
    → ((sent : Bytes) × (client_encode req request [] ≡ (ok tt, sent))
        × (server_decode req (sent ++ rest) ≡ (ok (some request), rest)))
      × ((sent : Bytes) × (server_encode res response [] ≡ (ok tt, sent))
          × (client_decode res (sent ++ rest) ≡ (ok (some response), rest)))
unfolding client_encode server_decode server_encode client_decode
server_decode-client_encode req res req_laws res_laws request response bytes payload rest e f h k =
    let (a, written, whole, front) = decode-encode_frame req req_laws request bytes e h in
    let (b, written_back, whole_back, front_back) =
      decode-encode_frame res res_laws response payload f k in
    ((a, written [], whole rest), (b, written_back [], whole_back rest))
