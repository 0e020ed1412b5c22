-- ===== src/Client/Partitioner/Stickiness.antt =====
-- The sticky partitioner of client/src/partitioner.rs stays with a partition for a batch.
use gaffa.Prelude.{
  ℕ, zero, suc, ◌+◌, ◌/◌, ◌%◌, ◌^◌, ◌<◌, ◌≡◌, ◌≢◌, refl, sym, ap, ◌∙◌, Option, arith, ◌⊎◌, inl, inr,
  le_cases,
}
use native.Mathlib.Nat.{mod-lt, mod-add-mod}
use gaffa.Prelude.Division.{div_same, div_next}
use gaffa.Prelude.Bytes.{Bytes}
use gaffa.Common.Error.{Result, ok}
use gaffa.Client.Partitioner.{Sticky, sticky, sticky_partition, switched}

-- The state behind `i` calls on a new partitioner, with the keys that these have, and what the call
-- after those returns.
abbrev pub behind : (ℕ → Option Bytes) → ℕ → ℕ → ℕ → Sticky
behind keys b n zero = sticky b
behind keys b n (suc i) = (sticky_partition (behind keys b n i) (keys i) n).0

abbrev pub pick : (ℕ → Option Bytes) → ℕ → ℕ → ℕ → Result ℕ
pick keys b n i = (sticky_partition (behind keys b n i) (keys i) n).1

module _ (s : Sticky) (key : Option Bytes) (n : ℕ) (some_partition : 0 < n)
    (some_size : 0 < s.batch_size) where
  call_stays :
      (s.message_count ≡ 0) ⊎ (s.message_count % s.batch_size ≢ 0)
      → sticky_partition s key n
        ≡ (record s { message_count = (s.message_count + 1) % 2 ^ 32 }, ok s.current_partition)
  unfolding sticky_partition
  call_stays h = ground arith

  call_switches :
      0 < s.message_count
      → s.message_count % s.batch_size ≡ 0
      → sticky_partition s key n ≡ (
        record s {
          message_count = (s.message_count + 1) % 2 ^ 32;
          current_partition = (s.current_partition + 1) % 2 ^ 32 % n;
        },
        ok ((s.current_partition + 1) % 2 ^ 32 % n),
      )
  unfolding sticky_partition switched
  call_switches h k = ground arith

module _ (keys : ℕ → Option Bytes) (b n : ℕ) (some_size : 0 < b) (some_partition : 0 < n)
    (word : n < 2 ^ 32) where
  -- What a new partitioner has come to behind the call of index `i`.
  record Turn (i : ℕ) (s : Sticky) : Type 0 where
    count : s.message_count ≡ i + 1
    size : s.batch_size ≡ b
    current : s.current_partition ≡ i / b % n

  abbrev Goes : ℕ → Type 0
  Goes i = Turn i (behind keys b n (suc i)) × (pick keys b n i ≡ ok (i / b % n))

  Turn-of :
      (i c : ℕ) (s : Sticky) (key : Option Bytes)
      → sticky_partition s key n
        ≡ (record s { message_count = (i + 1) % 2 ^ 32; current_partition = c }, ok c)
      → s.batch_size ≡ b
      → i + 1 < 2 ^ 32
      → c ≡ i / b % n
      → Turn i (sticky_partition s key n).0 × ((sticky_partition s key n).1 ≡ ok (i / b % n))
  Turn-of i c s key e size k at = (
    record {
      count = omega (arith, ap (λ q. (q.0).message_count) e);
      size = ap (λ q. (q.0).batch_size) e ∙ size;
      current = ap (λ q. (q.0).current_partition) e ∙ at;
    },
    ap (λ q. q.1) e ∙ ap ok at,
  )

  goes : (i : ℕ) → i + 1 < 2 ^ 32 → Goes i
  goes zero k =
      Turn-of 0 0 (sticky b) (keys 0)
        (call_stays (sticky b) (keys 0) n some_partition some_size (inl refl)) refl k (grind arith)
  goes (suc i) k =
      let s : Sticky = behind keys b n (suc i) in
      let turn = (goes i (omega arith)).0 in
      let counted : s.message_count ≡ suc i = omega (arith, turn.count) in
      let same_index : (i + 1) / b % n ≡ suc i / b % n =
        ap (λ m. m / b % n) {x = i + 1} {y = suc i} (omega arith) in
      let due : s.message_count % s.batch_size ≡ (i + 1) % b =
        ap (λ m. m % s.batch_size) turn.count ∙ ap (λ m. (i + 1) % m) turn.size in
      elim (le_cases 1 ((i + 1) % b)) [
        | inl inside ↦
            Turn-of (suc i) s.current_partition s (keys (suc i))
              (call_stays s (keys (suc i)) n some_partition (omega (arith, turn.size))
                  (inr (λ z. omega (arith, due, z)))
                ∙ ap (λ m. (record s { message_count = (m + 1) % 2 ^ 32 }, ok s.current_partition))
                    counted)
              turn.size k
              (turn.current
                ∙ ap (λ q. q % n) (sym (div_same i b some_size (λ z. omega (arith, z))))
                ∙ same_index)
        | inr over ↦
            Turn-of (suc i) ((s.current_partition + 1) % 2 ^ 32 % n) s (keys (suc i))
              (call_switches s (keys (suc i)) n some_partition (omega (arith, turn.size))
                  (omega (arith, turn.count)) (omega (arith, due))
                ∙ ap
                    (λ m. (
                      record s {
                        message_count = (m + 1) % 2 ^ 32;
                        current_partition = (s.current_partition + 1) % 2 ^ 32 % n;
                      },
                      ok ((s.current_partition + 1) % 2 ^ 32 % n),
                    ))
                    counted)
              turn.size k
              (ap (λ m. (m + 1) % 2 ^ 32 % n) turn.current
                ∙ ap (λ m. m % n) {x = (i / b % n + 1) % 2 ^ 32} {y = i / b % n + 1}
                    (omega (arith, mod-lt (i / b) some_partition))
                ∙ mod-add-mod (i / b) n 1
                ∙ ap (λ q. q % n) (sym (div_next i b some_size (omega arith)))
                ∙ same_index)
      ]

  -- On a new partitioner the call of index `i` gives the partition `i / b % n` of its batch, whatever
  -- keys the calls have: for a batch size `b` and a number of partitions `n` that are not zero and
  -- stay the same, `n` below 2 ^ 32, and until the count has 32 bits.
  pub sticky-batches : (i : ℕ) → i + 1 < 2 ^ 32 → pick keys b n i ≡ ok (i / b % n)
  sticky-batches i k = (goes i k).1

  -- When a new partitioner has had `i` calls for `n` partitions and is in the middle of a batch, a
  -- call for another number of partitions, which is not zero, gives the partition of the batch, `i /
  -- b % n`, also where that is not below the other number: with the conditions on batches and until
  -- the count has 32 bits.
  pub sticky_shrunk :
      (i other : ℕ) (key : Option Bytes)
      → i % b ≢ 0
      → 0 < other
      → i < 2 ^ 32
      → (sticky_partition (behind keys b n i) key other).1 ≡ ok (i / b % n)
  sticky_shrunk zero other key inside present k = absurd (inside (omega arith))
  sticky_shrunk (suc i) other key inside present k =
      let s : Sticky = behind keys b n (suc i) in
      let turn = (goes i (omega arith)).0 in
      let due : s.message_count % s.batch_size ≡ suc i % b =
        ap (λ m. m % s.batch_size) {x = s.message_count} {y = suc i} (omega (arith, turn.count))
        ∙ ap (λ m. suc i % m) turn.size in
      ap (λ q. q.1)
        (call_stays s key other present (omega (arith, turn.size))
          (inr (λ z. inside (sym due ∙ z))))
      ∙ ap ok (
          turn.current
          ∙ ap (λ q. q % n)
              (sym (
                div_same i b some_size
                  (λ z. inside (ap (λ m. m % b) {x = suc i} {y = i + 1} (omega arith) ∙ z))))
          ∙ ap (λ m. m / b % n) {x = i + 1} {y = suc i} (omega arith))
