-- ===== src/Broker/Coordinator/Assignment/Dealing.antt =====
-- Dealing out a list in turn, as `rebalance` of broker/src/coordinator.rs deals out partitions.
use gaffa.Prelude.{
  ℕ, zero, suc, ◌+◌, ◌-◌, ◌*◌, ◌/◌, ◌%◌, ◌≤◌, ◌<◌, ◌≡◌, ◌≢◌, refl, sym, ap, ◌∙◌, List, [], ◌∷◌,
  arith, length, get_elem?, ◌==◌, if◌then◌else◌, Bool-cases, inl, inr, ==_iff,
}
use native.Mathlib.Nat.{mod-lt, div-add-mod}
use gaffa.Prelude.Division.{div_same, div_next}
use gaffa.Protocol.Messages.{PartitionAssignment}

-- The cards that place `k` of `n` gets, when they are dealt in turn from place `idx` on.
abbrev pub dealt : ℕ → ℕ → ℕ → List PartitionAssignment → List PartitionAssignment
dealt k n idx [] = []
dealt k n idx (a ∷ rest) =
    if idx % n == k then a ∷ dealt k n (idx + 1) rest else dealt k n (idx + 1) rest

-- How many of the numbers below `m` have the remainder `k` by `n`.
abbrev pub hits : ℕ → ℕ → ℕ → ℕ
hits k n m = (m + (n - 1 - k)) / n

place_hit : (k n idx : ℕ) → k < n → idx % n ≡ k → (idx + (n - 1 - k) + 1) % n ≡ 0
place_hit k n idx h e = grind (
  arith,
  div-add-mod idx n,
  div-add-mod (idx + (n - 1 - k) + 1) n,
  mod-lt (idx + (n - 1 - k) + 1) {m = n} (omega arith),
)

place_miss : (k n idx : ℕ) → k < n → idx % n ≢ k → (idx + (n - 1 - k) + 1) % n ≢ 0
place_miss k n idx h d e = grind (
  arith,
  div-add-mod idx n,
  div-add-mod (idx + (n - 1 - k) + 1) n,
  mod-lt idx {m = n} (omega arith),
)

hits_hit : (k n idx : ℕ) → k < n → idx % n ≡ k → hits k n (idx + 1) ≡ hits k n idx + 1
hits_hit k n idx h e =
    ap (λ m. m / n) {x = idx + 1 + (n - 1 - k)} {y = idx + (n - 1 - k) + 1} (omega arith)
    ∙ div_next (idx + (n - 1 - k)) n (omega arith) (place_hit k n idx h e)

hits_miss : (k n idx : ℕ) → k < n → idx % n ≢ k → hits k n (idx + 1) ≡ hits k n idx
hits_miss k n idx h d =
    ap (λ m. m / n) {x = idx + 1 + (n - 1 - k)} {y = idx + (n - 1 - k) + 1} (omega arith)
    ∙ div_same (idx + (n - 1 - k)) n (omega arith) (place_miss k n idx h d)

pub length-dealt :
    (k n idx : ℕ) (rest : List PartitionAssignment)
    → k < n
    → length (dealt k n idx rest) + hits k n idx ≡ hits k n (idx + length rest)
length-dealt k n idx [] h = omega (arith, ap (hits k n) {x = idx} {y = idx + 0} (omega arith))
length-dealt k n idx (a ∷ rest) h =
    let next = length-dealt k n (idx + 1) rest h in
    let shift =
      ap (hits k n) {x = idx + 1 + length rest} {y = idx + suc (length rest)} (omega arith) in
    elim (Bool-cases (idx % n == k)) [
      | inl hit ↦
          rw (hit) (omega (arith, next, shift, hits_hit k n idx h ((==_iff (idx % n) k).0 hit)))
      | inr miss ↦ rw (miss) (
          omega
            (arith, next, shift, hits_miss k n idx h (λ q. cc (miss, (==_iff (idx % n) k).1 q))))
    ]

hits_mono : (k n m j : ℕ) → 0 < n → m ≤ j → hits k n m ≤ hits k n j
hits_mono k n m j h l = grind (
  arith,
  div-add-mod (m + (n - 1 - k)) n,
  div-add-mod (j + (n - 1 - k)) n,
  mod-lt (m + (n - 1 - k)) h,
  mod-lt (j + (n - 1 - k)) h,
)

pub hits_near : (k j n m : ℕ) → k < n → j < n → hits k n m ≤ hits j n m + 1
hits_near k j n m h l = grind (
  arith,
  div-add-mod (m + (n - 1 - k)) n,
  div-add-mod (m + (n - 1 - j)) n,
  mod-lt (m + (n - 1 - k)) {m = n} (omega arith),
  mod-lt (m + (n - 1 - j)) {m = n} (omega arith),
)

pub hits_zero : (k n : ℕ) → k < n → hits k n 0 ≡ 0
hits_zero k n h =
    grind (arith, div-add-mod (0 + (n - 1 - k)) n, mod-lt (0 + (n - 1 - k)) {m = n} (omega arith))

-- Where the card of place `i` is among those of its player.
pub get_elem?-dealt :
    (k n idx i q : ℕ) (rest : List PartitionAssignment)
    → k < n
    → (idx + i) % n ≡ k
    → q + hits k n idx ≡ hits k n (idx + i)
    → get_elem? (dealt k n idx rest) q ≡ get_elem? rest i
get_elem?-dealt k n idx i q [] h e s = refl
get_elem?-dealt k n idx zero q (a ∷ rest) h e s =
    let at : idx % n ≡ k = ap (λ m. m % n) {x = idx} {y = idx + 0} (omega arith) ∙ e in
    rw ((==_iff (idx % n) k).1 at) (
      ap (get_elem? (a ∷ dealt k n (idx + 1) rest)) {x = q} {y = 0}
        (omega (arith, s, ap (hits k n) {x = idx + 0} {y = idx} (omega arith))))
get_elem?-dealt k n idx (suc i) q (a ∷ rest) h e s =
    let move = ap (hits k n) {x = idx + suc i} {y = idx + 1 + i} (omega arith) in
    let at : (idx + 1 + i) % n ≡ k =
      ap (λ m. m % n) {x = idx + 1 + i} {y = idx + suc i} (omega arith) ∙ e in
    elim (Bool-cases (idx % n == k)) [
      | inl hit ↦
          let grows = hits_hit k n idx h ((==_iff (idx % n) k).0 hit) in
          let room = hits_mono k n (idx + 1) (idx + 1 + i) (omega arith) (omega arith) in
          rw (hit) (
            ap (get_elem? (a ∷ dealt k n (idx + 1) rest)) {x = q} {y = suc (q - 1)}
              (omega (arith, s, move, grows, room))
            ∙ get_elem?-dealt k n (idx + 1) i (q - 1) rest h at
                (omega (arith, s, move, grows, room)))
      | inr miss ↦ rw (miss) (
          get_elem?-dealt k n (idx + 1) i q rest h at (
            omega (arith, s, move, hits_miss k n idx h (λ p. cc (miss, (==_iff (idx % n) k).1 p)))))
    ]

pub place_div : (n i : ℕ) → 0 < n → hits (i % n) n i ≡ i / n
place_div n i h = grind (
  arith,
  div-add-mod i n,
  mod-lt i h,
  div-add-mod (i + (n - 1 - i % n)) n,
  mod-lt (i + (n - 1 - i % n)) h,
)

-- Card `q` of place `k` is the one of place `q * n + k` of all.
pub get_elem?-dealt_all :
    (k n q : ℕ) (rest : List PartitionAssignment)
    → k < n
    → get_elem? (dealt k n 0 rest) q ≡ get_elem? rest (q * n + k)
get_elem?-dealt_all k n q rest h =
    get_elem?-dealt k n 0 (q * n + k) q rest h
      (ap (λ m. m % n) {x = 0 + (q * n + k)} {y = q * n + k} (omega arith) ∙ remainder)
      (omega (
        arith,
        hits_zero k n h,
        here,
        ap (hits k n) {x = q * n + k} {y = 0 + (q * n + k)} (omega arith),
      ))
  where
    remainder : (q * n + k) % n ≡ k
    remainder = grind (arith, div-add-mod (q * n + k) n, mod-lt (q * n + k) {m = n} (omega arith))

    quotient : (q * n + k) / n ≡ q
    quotient = grind (arith, div-add-mod (q * n + k) n, mod-lt (q * n + k) {m = n} (omega arith))

    here : hits k n (q * n + k) ≡ q
    here =
        ap (λ j. hits j n (q * n + k)) (sym remainder)
        ∙ place_div n (q * n + k) (omega arith)
        ∙ quotient

-- The numbers of cards of two places differ by one at most.
pub length-dealt_near :
    (k j n : ℕ) (rest : List PartitionAssignment)
    → k < n
    → j < n
    → length (dealt k n 0 rest) ≤ length (dealt j n 0 rest) + 1
length-dealt_near k j n rest h l = omega (
  arith,
  length-dealt k n 0 rest h,
  length-dealt j n 0 rest l,
  hits_zero k n h,
  hits_zero j n l,
  hits_near k j n (0 + length rest) h l,
)
