-- ===== src/Storage/Segment/Scanning.antt =====
-- The loops of storage/src/segment.rs over the bytes of a log.
use gaffa.Prelude.{
  ℕ, zero, suc, ◌+◌, ◌-◌, ◌≤◌, ◌<◌, ◌≡◌, refl, sym, ap, ◌∙◌, Bool, true, some, List, [], ◌∷◌, ◌++◌,
  append-nil, append_assoc, arith, length, get_elem?, take, drop, take_nil, drop_nil, All,
  length-append, le_cases, inl, inr,
}
use mathlib.Core.Option.{some-injective}
use gaffa.Prelude.Bytes.{Bytes}
use gaffa.Common.Error.{ok}
use gaffa.Storage.Compression.{Codecs, CodecLaws}
use gaffa.Storage.Record.{DiskRecord}
use gaffa.Storage.Segment.{read_loop, batch_loop, scan_loop}
use gaffa.Storage.Segment.Log.{IsFrom, IsStored, log_bytes, decode_end, decode-record_bytes}

module _ (lib : Codecs) (laws : CodecLaws lib) where
  -- Each loop on one record of the log.
  module _ (r : DiskRecord) (rs : List DiskRecord) (v : IsStored lib r) (fuel : ℕ) where
    pub scan_loop_cons :
        (last : ℕ)
        → scan_loop lib (suc fuel) (log_bytes lib (r ∷ rs)) last
          ≡ scan_loop lib fuel (log_bytes lib rs) r.offset
    unfolding scan_loop
    scan_loop_cons last = rw (decode-record_bytes lib laws r (log_bytes lib rs) v, scan_loop)

    read_loop_found :
        (offset : ℕ)
        → r.offset ≡ offset
        → read_loop lib (suc fuel) (log_bytes lib (r ∷ rs)) offset ≡ ok r
    unfolding read_loop
    read_loop_found offset h = ground (arith, decode-record_bytes lib laws r (log_bytes lib rs) v)

    read_loop_cons :
        (offset : ℕ)
        → r.offset < offset
        → read_loop lib (suc fuel) (log_bytes lib (r ∷ rs)) offset
          ≡ read_loop lib fuel (log_bytes lib rs) offset
    unfolding read_loop
    read_loop_cons offset h = ground (arith, decode-record_bytes lib laws r (log_bytes lib rs) v)

    batch_loop_push :
        (start max : ℕ) (found : Bool) (out : List DiskRecord)
        → length out < max
        → start ≤ r.offset
        → batch_loop lib (suc fuel) (log_bytes lib (r ∷ rs)) start max found out
          ≡ batch_loop lib fuel (log_bytes lib rs) start max true (out ++ r ∷ [])
    unfolding batch_loop
    batch_loop_push start max found out room h =
        ground (arith, decode-record_bytes lib laws r (log_bytes lib rs) v)

    batch_loop_pass :
        (start max : ℕ) (found : Bool) (out : List DiskRecord)
        → length out < max
        → r.offset < start
        → batch_loop lib (suc fuel) (log_bytes lib (r ∷ rs)) start max found out
          ≡ batch_loop lib fuel (log_bytes lib rs) start max found out
    unfolding batch_loop
    batch_loop_pass start max found out room h =
        ground (arith, decode-record_bytes lib laws r (log_bytes lib rs) v)

  batch_loop_full :
      (fuel : ℕ) (bs : Bytes) (start max : ℕ) (found : Bool) (out : List DiskRecord)
      → max ≤ length out
      → batch_loop lib fuel bs start max found out ≡ ok out
  unfolding batch_loop
  batch_loop_full zero bs start max found out h = refl
  batch_loop_full (suc fuel) bs start max found out h = ground arith

  batch_loop_end :
      (fuel start max : ℕ) (found : Bool) (out : List DiskRecord)
      → batch_loop lib fuel [] start max found out ≡ ok out
  unfolding batch_loop
  batch_loop_end zero start max found out = refl
  batch_loop_end (suc fuel) start max found out = ground (arith, (decode_end lib).1)

  scan_loop_end : (fuel last : ℕ) → scan_loop lib (suc fuel) [] last ≡ ok last
  unfolding scan_loop
  scan_loop_end fuel last = rw ((decode_end lib).1, scan_loop)

  pushed :
      (q : DiskRecord) (rs : List DiskRecord) (n start max : ℕ) (out : List DiskRecord)
      → length out < max
      → start ≤ n
      → (out ++ q ∷ []) ++ take (max - length (out ++ q ∷ [])) (drop (start - (n + 1)) rs)
        ≡ out ++ take (max - length out) (drop (start - n) (q ∷ rs))
  pushed q rs n start max out room here =
      append_assoc out (q ∷ []) _
      ∙ ap (λ k. out ++ q ∷ take k (drop (start - (n + 1)) rs)) {x = max - length (out ++ q ∷ [])}
          {y = max - length out - 1} (omega (arith, length-append out (q ∷ [])))
      ∙ ap (λ k. out ++ q ∷ take (max - length out - 1) (drop k rs)) {x = start - (n + 1)} {y = 0}
          (omega arith)
      ∙ ap (λ k. out ++ take k (q ∷ rs)) {x = suc (max - length out - 1)} {y = max - length out}
          (omega arith)
      ∙ ap (λ k. out ++ take (max - length out) (drop k (q ∷ rs))) {x = 0} {y = start - n}
          (omega arith)

  -- With more fuel than records, `read_loop` finds the record with the offset.
  pub read_loop-log_bytes :
      (rs : List DiskRecord) (n fuel offset : ℕ) (r : DiskRecord)
      → All (IsStored lib) rs
      → IsFrom n rs
      → length rs ≤ fuel
      → n ≤ offset
      → get_elem? rs (offset - n) ≡ some r
      → read_loop lib fuel (log_bytes lib rs) offset ≡ ok r
  read_loop-log_bytes [] n fuel offset r vs f h below g = cc
  read_loop-log_bytes (q ∷ rs) n zero offset r vs f h below g = absurd (omega arith)
  read_loop-log_bytes (q ∷ rs) n (suc fuel) offset r (v, vs) (f, fs) h below g =
      elim (le_cases offset n) [
        | inl here ↦
            read_loop_found q rs v fuel offset (omega (arith, f))
            ∙ ap ok (
                some-injective q r
                  (ap (get_elem? (q ∷ rs)) {x = 0} {y = offset - n} (omega arith) ∙ g))
        | inr later ↦
            read_loop_cons q rs v fuel offset (omega (arith, f))
            ∙ read_loop-log_bytes rs (n + 1) fuel offset r vs fs (omega arith) (omega arith) (
                ap (get_elem? (q ∷ rs)) {x = suc (offset - (n + 1))} {y = offset - n} (omega arith)
                ∙ g)
      ]

  -- With more fuel than records, `batch_loop` adds the records from `start` on, up to `max`.
  pub batch_loop-log_bytes :
      (rs : List DiskRecord) (n fuel start max : ℕ) (found : Bool) (out : List DiskRecord)
      → All (IsStored lib) rs
      → IsFrom n rs
      → length rs ≤ fuel
      → batch_loop lib fuel (log_bytes lib rs) start max found out
        ≡ ok (out ++ take (max - length out) (drop (start - n) rs))
  batch_loop-log_bytes [] n fuel start max found out vs f h =
      batch_loop_end fuel start max found out
      ∙ ap ok (
          sym (
            ap (λ l. out ++ take (max - length out) l) (drop_nil (start - n))
            ∙ ap (λ l. out ++ l) (take_nil (max - length out))
            ∙ append-nil out))
  batch_loop-log_bytes (q ∷ rs) n zero start max found out vs f h = absurd (omega arith)
  batch_loop-log_bytes (q ∷ rs) n (suc fuel) start max found out (v, vs) (f, fs) h =
      elim (le_cases max (length out)) [
        | inl full ↦
            batch_loop_full (suc fuel) _ start max found out full
            ∙ ap ok (
                sym (
                  ap (λ k. out ++ take k (drop (start - n) (q ∷ rs))) {x = max - length out} {y = 0}
                    (omega arith)
                  ∙ append-nil out))
        | inr room ↦ elim (le_cases start n) [
          | inl here ↦
              batch_loop_push q rs v fuel start max found out room (omega (arith, f))
              ∙ batch_loop-log_bytes rs (n + 1) fuel start max true (out ++ q ∷ []) vs fs
                  (omega arith)
              ∙ ap ok (pushed q rs n start max out room here)
          | inr later ↦
              batch_loop_pass q rs v fuel start max found out room (omega (arith, f))
              ∙ batch_loop-log_bytes rs (n + 1) fuel start max found out vs fs (omega arith)
              ∙ ap (λ k. ok (out ++ take (max - length out) (drop k (q ∷ rs))))
                  {x = suc (start - (n + 1))} {y = start - n} (omega arith)
        ]
      ]

  -- With more fuel than records, `scan_loop` ends with the last record's offset.
  pub scan_loop-log_bytes :
      (rs : List DiskRecord) (n fuel : ℕ)
      → All (IsStored lib) rs
      → IsFrom (n + 1) rs
      → length rs < fuel
      → scan_loop lib fuel (log_bytes lib rs) n ≡ ok (n + length rs)
  scan_loop-log_bytes [] n zero vs f h = absurd (omega arith)
  scan_loop-log_bytes [] n (suc fuel) vs f h =
      scan_loop_end fuel n ∙ ap ok {x = n} {y = n + 0} (omega arith)
  scan_loop-log_bytes (q ∷ rs) n zero vs f h = absurd (omega arith)
  scan_loop-log_bytes (q ∷ rs) n (suc fuel) (v, vs) (f, fs) h =
      scan_loop_cons q rs v fuel n
      ∙ ap (scan_loop lib fuel (log_bytes lib rs)) f
      ∙ scan_loop-log_bytes rs (n + 1) fuel vs fs (omega arith)
      ∙ ap ok (omega arith)
