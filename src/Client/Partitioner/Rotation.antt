-- ===== src/Client/Partitioner/Rotation.antt =====
-- The round-robin partitioner of client/src/partitioner.rs takes the partitions in turn.
use gaffa.Prelude.{ℕ, zero, suc, ◌+◌, ◌%◌, ◌^◌, ◌<◌, ◌≡◌, ◌≢◌, ap, ◌∙◌, Option, arith}
use native.Mathlib.Nat.{mod-lt, div-add-mod, add-mod_right}
use gaffa.Prelude.Bytes.{Bytes}
use gaffa.Common.Error.{Result, ok}
use gaffa.Client.Partitioner.{RoundRobin, round_robin_partition}

-- The state behind `i` calls, with the keys that these have, and what the call after those returns.
abbrev pub behind : (ℕ → Option Bytes) → RoundRobin → ℕ → ℕ → RoundRobin
behind keys s n zero = s
behind keys s n (suc i) = (round_robin_partition (behind keys s n i) (keys i) n).0

abbrev pub pick : (ℕ → Option Bytes) → RoundRobin → ℕ → ℕ → Result ℕ
pick keys s n i = (round_robin_partition (behind keys s n i) (keys i) n).1

counted :
    (s : RoundRobin) (key : Option Bytes) (n : ℕ)
    → 0 < n
    → ((round_robin_partition s key n).0).counter ≡ (s.counter + 1) % 2 ^ 32
unfolding round_robin_partition
counted s key n h = ground arith

picked :
    (s : RoundRobin) (key : Option Bytes) (n : ℕ)
    → 0 < n
    → (round_robin_partition s key n).1 ≡ ok (s.counter % n)
unfolding round_robin_partition
picked s key n h = ground arith

behind_counter :
    (keys : ℕ → Option Bytes) (s : RoundRobin) (n i : ℕ)
    → 0 < n
    → s.counter + i < 2 ^ 32
    → (behind keys s n i).counter ≡ s.counter + i
behind_counter keys s n zero h k = omega arith
behind_counter keys s n (suc i) h k =
    omega
      (arith, counted (behind keys s n i) (keys i) n h, behind_counter keys s n i h (omega arith))

-- Numbers less than `n` apart have different remainders by `n`.
mod_differs : (a b n : ℕ) → a < b → b < a + n → a % n ≢ b % n
mod_differs a b n h k e = grind (arith, div-add-mod a n, div-add-mod b n)

pick_lem :
    (keys : ℕ → Option Bytes) (s : RoundRobin) (n i : ℕ)
    → 0 < n
    → s.counter + i < 2 ^ 32
    → pick keys s n i ≡ ok ((s.counter + i) % n)
pick_lem keys s n i h k =
    picked (behind keys s n i) (keys i) n h ∙ ap (λ c. ok (c % n)) (behind_counter keys s n i h k)

-- Calls less than a round of `n` apart give different partitions, all of them below `n`, and a call
-- a round later gives the same one again, whatever keys the calls have: until the counter has 32
-- bits.
pub pick_turns :
    (keys : ℕ → Option Bytes) (s : RoundRobin) (n i j : ℕ)
    → i < j
    → j < i + n
    → s.counter + i + n < 2 ^ 32
    → (a : ℕ) × (b : ℕ) × (pick keys s n i ≡ ok a)
      × (pick keys s n j ≡ ok b)
      × (a < n)
      × (b < n)
      × (a ≢ b)
      × (pick keys s n (i + n) ≡ ok a)
pick_turns keys s n i j h k small = (
  (s.counter + i) % n,
  (s.counter + j) % n,
  pick_lem keys s n i (omega arith) (omega arith),
  pick_lem keys s n j (omega arith) (omega arith),
  mod-lt (s.counter + i) (omega arith),
  mod-lt (s.counter + j) (omega arith),
  mod_differs (s.counter + i) (s.counter + j) n (omega arith) (omega arith),
  pick_lem keys s n (i + n) (omega arith) (omega arith)
      ∙ ap (λ c. ok (c % n)) {x = s.counter + (i + n)} {y = s.counter + i + n} (omega arith)
      ∙ ap ok (add-mod_right (s.counter + i) n),
)
