-- ===== src/Storage/Index/Lookup/Places.antt =====
-- The places of the entries of a sorted index of storage/src/index.rs.
use gaffa.Prelude.{
  ℕ, zero, suc, ◌+◌, ◌≤◌, ◌<◌, ◌≡◌, sym, ap, ◌∙◌, Option, none, some, List, [], ◌∷◌, ◌++◌, arith,
  length, length-append, get_elem?, get_elem?_below, get_elem?-append_left, get_elem?-append_right,
  le_cases, inl, inr,
}
use mathlib.Core.Option.{some-injective}
use gaffa.Storage.Index.Entries.{Entry}

-- The offset of entry `i`, and 0 out of range.
abbrev pub offset_at : List Entry → ℕ → ℕ
offset_at [] i = 0
offset_at (e ∷ es) zero = e.0
offset_at (e ∷ es) (suc i) = offset_at es i

abbrev pub IsSorted : List Entry → Type 0
IsSorted es = (i j : ℕ) → i ≤ j → j < length es → offset_at es i ≤ offset_at es j

-- The position of the entry before place `r`, if there is one.
abbrev pub position_before : List Entry → ℕ → Option ℕ
position_before es zero = none
position_before [] (suc r) = none
position_before (e ∷ es) (suc zero) = some e.1
position_before (e ∷ es) (suc (suc r)) = position_before es (suc r)

-- `r` splits the entries at the target: those before it are not past the target, the others are.
abbrev pub Splits : List Entry → ℕ → ℕ → Type 0
Splits es target r =
    (r ≤ length es)
    × ((i : ℕ) → i < r → offset_at es i ≤ target)
    × ((i : ℕ) → r ≤ i → i < length es → target < offset_at es i)

pub get_elem?-offset_at :
    (es : List Entry) (i : ℕ) (e : Entry) → get_elem? es i ≡ some e → offset_at es i ≡ e.0
get_elem?-offset_at [] i e h = cc
get_elem?-offset_at (d ∷ es) zero e h = ap (λ t. t.0) (some-injective d e h)
get_elem?-offset_at (d ∷ es) (suc i) e h = get_elem?-offset_at es i e h

pub get_elem?-position_before :
    (es : List Entry) (i : ℕ) (e : Entry)
    → get_elem? es i ≡ some e
    → position_before es (suc i) ≡ some e.1
get_elem?-position_before [] i e h = cc
get_elem?-position_before (d ∷ es) zero e h = ap (λ t. some t.1) (some-injective d e h)
get_elem?-position_before (d ∷ es) (suc i) e h = get_elem?-position_before es i e h

module _ (es : List Entry) (e : Entry) where
  offset_at-append_left : (i : ℕ) → i < length es → offset_at (es ++ e ∷ []) i ≡ offset_at es i
  offset_at-append_left i h =
      let (d, g) = get_elem?_below es i h in
      get_elem?-offset_at (es ++ e ∷ []) i d (get_elem?-append_left es (e ∷ []) i h ∙ g)
      ∙ sym (get_elem?-offset_at es i d g)

  offset_at-append_last : offset_at (es ++ e ∷ []) (length es) ≡ e.0
  offset_at-append_last = get_elem?-offset_at (es ++ e ∷ []) (length es) e (
      ap (get_elem? (es ++ e ∷ [])) {x = length es} {y = length es + 0} (omega arith)
      ∙ get_elem?-append_right es (e ∷ []) 0)

  -- An entry that is not before any other keeps the order.
  pub IsSorted-append :
      IsSorted es → ((i : ℕ) → i < length es → offset_at es i ≤ e.0) → IsSorted (es ++ e ∷ [])
  IsSorted-append sorted last i j h k = elim (le_cases (length es) j) [
    | inr inner ↦ omega (
      arith,
      offset_at-append_left i (omega arith),
      offset_at-append_left j inner,
      sorted i j h inner,
    )
    | inl outer ↦ elim (le_cases (length es) i) [
      | inl both ↦ omega (
        arith,
        ap (offset_at (es ++ e ∷ [])) {x = i} {y = j} (omega (arith, length-append es (e ∷ []))),
      )
      | inr inner ↦ omega (
        arith,
        offset_at-append_left i inner,
        last i inner,
        offset_at-append_last,
        ap (offset_at (es ++ e ∷ [])) {x = j} {y = length es}
            (omega (arith, length-append es (e ∷ []))),
      )
    ]
  ]

pub next_place : (es : List Entry) (i : ℕ) → position_before es (suc i) ≡ position_before es (i + 1)
next_place es i = ap (position_before es) {x = suc i} {y = i + 1} (omega arith)
