-- ===== src/Broker/Cluster/Watermark/Minimum.antt =====
-- The smallest offset of a list of brokers, as broker/src/cluster.rs computes it.
use gaffa.Prelude.{
  ℕ, ◌≤◌, ◌≡◌, refl, sym, ap, ◌∙◌, true, none, some, List, [], ◌∷◌, arith, ◌==◌, min, Option-cases,
  le_cases, ◌⊎◌, inl, inr,
}
use mathlib.Core.Option.{some-injective}
use gaffa.Prelude.Maps.{find, member}
use gaffa.Broker.Cluster.{min_offset}

-- `r` is the smallest offset of the brokers that have one.
abbrev pub IsMin : List (ℕ × ℕ) → List ℕ → ℕ → Type 0
IsMin offsets ids r =
    ((id o : ℕ) → member ◌==◌ id ids ≡ true → find ◌==◌ id offsets ≡ some o → r ≤ o)
    × ((id : ℕ) × (member ◌==◌ id ids ≡ true) × (find ◌==◌ id offsets ≡ some r))

member_cases :
    (j id : ℕ) (ids : List ℕ)
    → member ◌==◌ j (id ∷ ids) ≡ true
    → (j ≡ id) ⊎ (member ◌==◌ j ids ≡ true)
member_cases j id ids h = ground arith

module _ (offsets : List (ℕ × ℕ)) (id : ℕ) (ids : List ℕ) where
  min_skips : find ◌==◌ id offsets ≡ none → min_offset offsets (id ∷ ids) ≡ min_offset offsets ids
  unfolding min_offset
  min_skips h = rw (h, min_offset)

  min_starts :
      (o : ℕ)
      → find ◌==◌ id offsets ≡ some o
      → min_offset offsets ids ≡ none
      → min_offset offsets (id ∷ ids) ≡ some o
  unfolding min_offset
  min_starts o h e = rw (min_offset, h, e)

  min_joins :
      (o r : ℕ)
      → find ◌==◌ id offsets ≡ some o
      → min_offset offsets ids ≡ some r
      → min_offset offsets (id ∷ ids) ≡ some (min o r)
  unfolding min_offset
  min_joins o r h e = rw (min_offset, h, e)

-- No broker of the list has an offset.
abbrev pub HasNone : List (ℕ × ℕ) → List ℕ → Type 0
HasNone offsets ids = (id : ℕ) → member ◌==◌ id ids ≡ true → find ◌==◌ id offsets ≡ none

-- What `min_offset` makes of a list: nothing if no broker has an offset, and the smallest one.
abbrev pub Outcome : List (ℕ × ℕ) → List ℕ → Type 0
Outcome offsets ids =
    ((min_offset offsets ids ≡ none) × HasNone offsets ids)
    ⊎ ((r : ℕ) × (min_offset offsets ids ≡ some r) × IsMin offsets ids r)

-- One more broker in front of the list.
module _ (offsets : List (ℕ × ℕ)) (id : ℕ) (ids : List ℕ) where
  later : (j : ℕ) → member ◌==◌ j ids ≡ true → member ◌==◌ j (id ∷ ids) ≡ true
  later j m = ground arith

  here : member ◌==◌ id (id ∷ ids) ≡ true
  here = ground arith

  its_offset :
      (o k q : ℕ) → find ◌==◌ id offsets ≡ some o → k ≡ id → find ◌==◌ k offsets ≡ some q → o ≡ q
  its_offset o k q has s p =
      some-injective o q (sym has ∙ ap (λ k. find ◌==◌ k offsets) (sym s) ∙ p)

  without_offset : find ◌==◌ id offsets ≡ none → Outcome offsets ids → Outcome offsets (id ∷ ids)
  without_offset lacks (inl (e, all)) = inl (
    min_skips offsets id ids lacks ∙ e,
    λ j h. elim (member_cases j id ids h) [
      | inl q ↦ ap (λ k. find ◌==◌ k offsets) q ∙ lacks
      | inr q ↦ all j q
    ],
  )
  without_offset lacks (inr (r, e, (below, (j, m, at)))) = inr (
    r,
    min_skips offsets id ids lacks ∙ e,
    (
      λ k o h q. elim (member_cases k id ids h) [
        | inl p ↦ absurd (cc (lacks, q, p))
        | inr p ↦ below k o p q
      ],
      (j, later j m, at),
    ),
  )

  smaller :
      (o r : ℕ)
      → find ◌==◌ id offsets ≡ some o
      → (j : ℕ) → member ◌==◌ j ids ≡ true
      → find ◌==◌ j offsets ≡ some r
      → (k : ℕ) × (member ◌==◌ k (id ∷ ids) ≡ true) × (find ◌==◌ k offsets ≡ some (min o r))
  smaller o r has j m at = elim (le_cases o r) [
    | inl c ↦ (id, here, has ∙ ap some {x = o} {y = min o r} (omega arith))
    | inr c ↦ (j, later j m, at ∙ ap some {x = r} {y = min o r} (omega arith))
  ]

  with_offset :
      (o : ℕ) → find ◌==◌ id offsets ≡ some o → Outcome offsets ids → Outcome offsets (id ∷ ids)
  with_offset o has (inl (e, all)) = inr (
    o,
    min_starts offsets id ids o has e,
    (
      λ k q h p. elim (member_cases k id ids h) [
        | inl s ↦ omega (arith, its_offset o k q has s p)
        | inr s ↦ absurd (cc (all k s, p))
      ],
      (id, here, has),
    ),
  )
  with_offset o has (inr (r, e, (below, (j, m, at)))) = inr (
    min o r,
    min_joins offsets id ids o r has e,
    (
      λ k q h p. elim (member_cases k id ids h) [
        | inl s ↦ omega (arith, its_offset o k q has s p)
        | inr s ↦ omega (arith, below k q s p)
      ],
      smaller o r has j m at,
    ),
  )

pub min_offset-IsMin : (offsets : List (ℕ × ℕ)) (ids : List ℕ) → Outcome offsets ids
min_offset-IsMin offsets [] = inl (unfold min_offset in refl, λ id h. cc)
min_offset-IsMin offsets (id ∷ ids) =
    let rest = min_offset-IsMin offsets ids in
    elim (Option-cases (find ◌==◌ id offsets)) [
      | inl lacks ↦ without_offset offsets id ids lacks rest
      | inr (o, has) ↦ with_offset offsets id ids o has rest
    ]
