-- ===== src/Prelude/Maps.antt =====
-- Maps as association lists and sets as lists, over a Boolean test of keys. A set that the source
-- keeps in a hash table is a list whose order is not used.
use Prim.Native.Nat.{ℕ}
use mathlib.Core.Path.{◌≡◌, refl, sym, ap, ◌∙◌}
use mathlib.Core.Bool.{Bool, true, false, ◌||◌}
use mathlib.Core.Option.{Option, none, some}
use mathlib.Core.List.{List, [], ◌∷◌, ◌++◌}
use native.Mathlib.Omega.{arith}
use text.Mathlib.Text.{◌==◌ as str_eq}
use text.Mathlib.TextEquality.{eq_iff}
use mathlib.Core.Logic.{inl, inr}
use gaffa.Prelude.Tests.{◌==◌, if◌then◌else◌, Bool-cases}

-- The test of keys tells equal ones apart from others.
pub record Lawful {ℓ} {K : Type ℓ} (same : K → K → Bool) : Type ℓ where
  pub sound : (a b : K) → same a b ≡ true → a ≡ b
  pub complete : (a : K) → same a a ≡ true

pub nat-Lawful : Lawful ◌==◌
nat-Lawful = record { sound = λ a b h. ground arith; complete = λ a. ground arith }

pub str-Lawful : Lawful str_eq
str-Lawful = record { sound = λ a b h. (eq_iff a b).0 h; complete = λ a. (eq_iff a a).1 refl }

module _ {ℓ κ} {K : Type ℓ} {V : Type κ} (same : K → K → Bool) where
  abbrev pub find : K → List (K × V) → Option V
  find k [] = none
  find k (e ∷ m) = if same k e.0 then some e.1 else find k m

  abbrev pub put : K → V → List (K × V) → List (K × V)
  put k v [] = (k, v) ∷ []
  put k v (e ∷ m) = if same k e.0 then (k, v) ∷ m else e ∷ put k v m

  abbrev pub erase : K → List (K × V) → List (K × V)
  erase k [] = []
  erase k (e ∷ m) = if same k e.0 then erase k m else e ∷ erase k m

module _ {ℓ} {K : Type ℓ} (same : K → K → Bool) where
  abbrev pub member : K → List K → Bool
  member k [] = false
  member k (x ∷ xs) = same k x || member k xs

  abbrev pub insert : K → List K → List K
  insert k xs = if member k xs then xs else k ∷ xs

  abbrev pub remove : K → List K → List K
  remove k [] = []
  remove k (x ∷ xs) = if same k x then remove k xs else x ∷ remove k xs

module _ {K : Type 0} (same : K → K → Bool) (lawful : Lawful same) (k : K) where
  other : (j x : K) → same j k ≡ false → same k x ≡ true → same j x ≡ false
  other j x d e = ap (same j) (sym (lawful.sound k x e)) ∙ d

module _ {K V : Type 0} (same : K → K → Bool) (lawful : Lawful same) (k : K) where
  pub find-put_same : (v : V) (m : List (K × V)) → find same k (put same k v m) ≡ some v
  find-put_same v [] = rw (lawful.complete k)
  find-put_same v (e ∷ m) = elim (Bool-cases (same k e.0)) [
    | inl h ↦ rw (h, lawful.complete k)
    | inr h ↦ rw (h) (rw (h) (find-put_same v m))
  ]

  pub find-put_other :
      (j : K) (v : V) (m : List (K × V))
      → same j k ≡ false
      → find same j (put same k v m) ≡ find same j m
  find-put_other j v [] d = rw (d)
  find-put_other j v (e ∷ m) d = elim (Bool-cases (same k e.0)) [
    | inl h ↦ rw (h, d, other same lawful k j e.0 d h)
    | inr h ↦ rw (h) (ap (λ o. if same j e.0 then some e.1 else o) (find-put_other j v m d))
  ]

  pub find-erase_same : (m : List (K × V)) → find same k (erase same k m) ≡ none
  find-erase_same [] = refl
  find-erase_same (e ∷ m) = elim (Bool-cases (same k e.0)) [
    | inl h ↦ rw (h) (find-erase_same m)
    | inr h ↦ rw (h) (rw (h) (find-erase_same m))
  ]

  pub find-erase_other :
      (j : K) (m : List (K × V)) → same j k ≡ false → find same j (erase same k m) ≡ find same j m
  find-erase_other j [] d = refl
  find-erase_other j (e ∷ m) d = elim (Bool-cases (same k e.0)) [
    | inl h ↦ rw (h, other same lawful k j e.0 d h) (find-erase_other j m d)
    | inr h ↦ rw (h) (ap (λ o. if same j e.0 then some e.1 else o) (find-erase_other j m d))
  ]

module _ {K : Type 0} (same : K → K → Bool) (lawful : Lawful same) (k : K) where
  pub member-insert_same : (xs : List K) → member same k (insert same k xs) ≡ true
  member-insert_same xs = elim (Bool-cases (member same k xs)) [
    | inl h ↦ rw (h, h)
    | inr h ↦ rw (h, lawful.complete k)
  ]

  pub member-insert_other :
      (j : K) (xs : List K) → same j k ≡ false → member same j (insert same k xs) ≡ member same j xs
  member-insert_other j xs d = elim (Bool-cases (member same k xs)) [
    | inl h ↦ rw (h)
    | inr h ↦ rw (h, d)
  ]

  pub member-remove_same : (xs : List K) → member same k (remove same k xs) ≡ false
  member-remove_same [] = refl
  member-remove_same (x ∷ xs) = elim (Bool-cases (same k x)) [
    | inl h ↦ rw (h) (member-remove_same xs)
    | inr h ↦ rw (h) (rw (h) (member-remove_same xs))
  ]

  pub member-remove_other :
      (j : K) (xs : List K) → same j k ≡ false → member same j (remove same k xs) ≡ member same j xs
  member-remove_other j [] d = refl
  member-remove_other j (x ∷ xs) d = elim (Bool-cases (same k x)) [
    | inl h ↦ rw (h, ap (same j) (sym (lawful.sound k x h)) ∙ d) (member-remove_other j xs d)
    | inr h ↦ rw (h) (ap (λ b. same j x || b) (member-remove_other j xs d))
  ]

module _ {K : Type 0} (same : K → K → Bool) where
  -- No element stands in the list twice.
  abbrev pub NoRepeats : List K → Type 0
  NoRepeats [] = Unit
  NoRepeats (x ∷ xs) = (member same x xs ≡ false) × NoRepeats xs

  pub member-append :
      (x : K) (xs ys : List K) → member same x (xs ++ ys) ≡ (member same x xs || member same x ys)
  member-append x [] ys = refl
  member-append x (y ∷ xs) ys = elim (Bool-cases (same x y)) [
    | inl h ↦ rw (h)
    | inr h ↦ rw (h) (member-append x xs ys)
  ]

  -- Two lists without repeats and without a common element.
  pub NoRepeats-append :
      Lawful same
      → (xs ys : List K) → NoRepeats xs
      → NoRepeats ys
      → ((x : K) → member same x xs ≡ true → member same x ys ≡ false)
      → NoRepeats (xs ++ ys)
  NoRepeats-append lawful [] ys h k apart = k
  NoRepeats-append lawful (x ∷ xs) ys (h, hs) k apart = (
    member-append x xs ys ∙ rw (h) (apart x (rw (lawful.complete x))),
    NoRepeats-append lawful xs ys hs k (λ z m. apart z (later z m)),
  )
    where
      later : (z : K) → member same z xs ≡ true → member same z (x ∷ xs) ≡ true
      later z m = elim (Bool-cases (same z x)) [ inl e ↦ rw (e) | inr e ↦ rw (e) m ]

  module _ (lawful : Lawful same) where
    pub member-insert :
        (x y : K) (xs : List K) → member same x (insert same y xs) ≡ (same x y || member same x xs)
    member-insert x y xs = elim (Bool-cases (same x y)) [
      | inl h ↦
          ap (λ z. member same z (insert same y xs)) (lawful.sound x y h)
          ∙ member-insert_same same lawful y xs
          ∙ rw (h)
      | inr h ↦ member-insert_other same lawful y x xs h ∙ rw (h)
    ]

    pub insert-NoRepeats : (x : K) (xs : List K) → NoRepeats xs → NoRepeats (insert same x xs)
    insert-NoRepeats x xs h = elim (Bool-cases (member same x xs)) [
      | inl m ↦ rw (m) h
      | inr m ↦ rw (m) (m, h)
    ]

-- No number stands in the list twice.
abbrev pub Distinct : List ℕ → Type 0
Distinct [] = Unit
Distinct (x ∷ xs) = (member ◌==◌ x xs ≡ false) × Distinct xs

pub beq_sym : (a b : ℕ) → (a == b) ≡ false → (b == a) ≡ false
beq_sym a b h = ground arith

pub not_in :
    (a b : ℕ) (xs : List ℕ)
    → member ◌==◌ a (b ∷ xs) ≡ false
    → ((a == b) ≡ false) × (member ◌==◌ a xs ≡ false)
not_in a b xs h = elim (Bool-cases (a == b)) [ inl e ↦ cc (e, h) | inr e ↦ (e, rw (e) refl ∙ h) ]

module _ {K V : Type 0} (same : K → K → Bool) where
  -- No key stands in the map twice.
  abbrev pub Unique : List (K × V) → Type 0
  Unique [] = Unit
  Unique (e ∷ es) = (find same e.0 es ≡ none) × Unique es

module _ {K : Type 0} (same : K → K → Bool) (lawful : Lawful same) where
  pub same_sym : (j k : K) → same j k ≡ false → same k j ≡ false
  same_sym j k h = elim (Bool-cases (same k j)) [
    | inr e ↦ e
    | inl e ↦
        let again : same j k ≡ true = ap (λ x. same j x) (lawful.sound k j e) ∙ lawful.complete j in
        cc (h, again)
  ]

module _ {K V : Type 0} (same : K → K → Bool) (lawful : Lawful same) where
  pub put-Unique : (k : K) (v : V) (m : List (K × V)) → Unique same m → Unique same (put same k v m)
  put-Unique k v [] h = (refl, tt)
  put-Unique k v (e ∷ es) h = elim (Bool-cases (same k e.0)) [
    | inl a ↦ rw (a) (ap (λ x. find same x es) (lawful.sound k e.0 a) ∙ h.0, h.1)
    | inr a ↦ rw (a) (
      find-put_other same lawful k e.0 v es (same_sym same lawful k e.0 a) ∙ h.0,
      put-Unique k v es h.1,
    )
  ]
