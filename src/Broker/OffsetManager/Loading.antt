-- ===== src/Broker/OffsetManager/Loading.antt =====
-- What `load` of broker/src/offset_manager.rs finds in the text of a group's offsets.
use mathlib.Core.Path.{subst}
use gaffa.Prelude.{
  ℕ, ◌^◌, ◌<◌, ◌≡◌, refl, ap, ◌∙◌, String, str_eq, Bool, true, false, ◌&&◌, Option, none, some,
  List, [], ◌∷◌, arith, ◌==◌, if◌then◌else◌, Bool-cases, All, inl, inr,
}
use gaffa.Prelude.Maps.{
  find, put, Lawful, Unique, nat-Lawful, str-Lawful, find-put_same, find-put_other, same_sym,
}
use gaffa.Broker.OffsetManager.Text.{lines}
use gaffa.Broker.OffsetManager.Text.RoundTrip.{IsPlain, parse_line-line, lines-line_of}
use gaffa.Broker.OffsetManager.{OffsetKey, offset_key_eq, load_lines, text_of}

and_parts : (x y z : Bool) → (x && (y && z)) ≡ true → (x ≡ true) × (y ≡ true) × (z ≡ true)
and_parts x y z h = ground arith

pub parts :
    (a b : OffsetKey)
    → offset_key_eq a b ≡ true
    → (str_eq a.0 b.0 ≡ true) × (str_eq a.1 b.1 ≡ true) × ((a.2 == b.2) ≡ true)
parts a b h = and_parts (str_eq a.0 b.0) (str_eq a.1 b.1) (a.2 == b.2) h

pub offset_key-Lawful : Lawful offset_key_eq
offset_key-Lawful = record {
  sound = λ a b h.
      let (g, t, p) = parts a b h in
      ap (λ x. (x, a.1, a.2)) (str-Lawful.sound a.0 b.0 g)
      ∙ ap (λ x. (b.0, x, a.2)) (str-Lawful.sound a.1 b.1 t)
      ∙ ap (λ x. (b.0, b.1, x)) (nat-Lawful.sound a.2 b.2 p);
  complete = λ a. rw (str-Lawful.complete a.0, str-Lawful.complete a.1, nat-Lawful.complete a.2);
}

-- An offset that the format of the files can hold.
abbrev pub IsSafe : OffsetKey × ℕ → Type 0
IsSafe e = IsPlain e.0.1 × (e.0.2 < 2 ^ 32) × (e.1 < 2 ^ 64)

-- The offsets of a group, put into a map one after the other.
pub restored : String → List (OffsetKey × ℕ) → List (OffsetKey × ℕ) → List (OffsetKey × ℕ)
restored g [] acc = acc
restored g (e ∷ es) acc =
    restored g es (if str_eq e.0.0 g then put offset_key_eq (g, e.0.1, e.0.2) e.1 acc else acc)

pub load_lines-text_of :
    (g : String) (es acc : List (OffsetKey × ℕ))
    → All IsSafe es
    → load_lines g (lines (text_of g es)) acc ≡ restored g es acc
unfolding load_lines text_of restored lines
load_lines-text_of g [] acc h = refl
load_lines-text_of g (e ∷ es) acc h = elim (Bool-cases (str_eq e.0.0 g)) [
  | inl a ↦ rw (a) (
      ap (λ ls. load_lines g ls acc) (lines-line_of e.0.1 e.0.2 e.1 (text_of g es) h.0.0)
      ∙ rw (load_lines, parse_line-line e.0.1 e.0.2 e.1 h.0.0 h.0.1 h.0.2)
          (load_lines-text_of g es (put offset_key_eq (g, e.0.1, e.0.2) e.1 acc) h.1))
  | inr a ↦ rw (a) (load_lines-text_of g es acc h.1)
]

abbrev pub or_else : Option ℕ → Option ℕ → Option ℕ
or_else none o = o
or_else (some n) o = some n

-- What the key is found as, behind the offsets of a group.
abbrev pub behind : String → OffsetKey → List (OffsetKey × ℕ) → Option ℕ → Option ℕ
behind g k es found = if str_eq k.0 g then or_else (find offset_key_eq k es) found else found

behind-put :
    (k : OffsetKey) (e : OffsetKey × ℕ) (es acc : List (OffsetKey × ℕ))
    → find offset_key_eq e.0 es ≡ none
    → behind e.0.0 k es (find offset_key_eq k (put offset_key_eq e.0 e.1 acc))
      ≡ behind e.0.0 k (e ∷ es) (find offset_key_eq k acc)
behind-put k e es acc u = elim (Bool-cases (offset_key_eq k e.0)) [
  | inl h ↦
      let eq : k ≡ e.0 = offset_key-Lawful.sound k e.0 h in
      let no : find offset_key_eq k es ≡ none = ap (λ x. find offset_key_eq x es) eq ∙ u in
      let new : find offset_key_eq k (put offset_key_eq e.0 e.1 acc) ≡ some e.1 =
        ap (λ x. find offset_key_eq x (put offset_key_eq e.0 e.1 acc)) eq
        ∙ find-put_same offset_key_eq offset_key-Lawful e.0 e.1 acc in
      rw (no, new, h, (parts k e.0 h).0)
  | inr h ↦
      let old : find offset_key_eq k (put offset_key_eq e.0 e.1 acc) ≡ find offset_key_eq k acc =
        find-put_other offset_key_eq offset_key-Lawful e.0 k e.1 acc h in
      let skip : find offset_key_eq k (e ∷ es) ≡ find offset_key_eq k es = rw (h) in rw (old, skip)
]

other_group :
    (g : String) (k : OffsetKey) (e : OffsetKey × ℕ) (es acc : List (OffsetKey × ℕ))
    → str_eq e.0.0 g ≡ false
    → behind g k es (find offset_key_eq k acc) ≡ behind g k (e ∷ es) (find offset_key_eq k acc)
other_group g k e es acc a = elim (Bool-cases (str_eq k.0 g)) [
  | inr b ↦ rw (b)
  | inl b ↦
      let apart : str_eq k.0 e.0.0 ≡ false =
        same_sym str_eq str-Lawful e.0.0 k.0
          (ap (λ x. str_eq e.0.0 x) (str-Lawful.sound k.0 g b) ∙ a) in
      let skip : offset_key_eq k e.0 ≡ false = rw (apart) in rw (b, skip)
]

pub find-restored :
    (g : String) (k : OffsetKey) (es acc : List (OffsetKey × ℕ))
    → Unique offset_key_eq es
    → find offset_key_eq k (restored g es acc) ≡ behind g k es (find offset_key_eq k acc)
unfolding restored
find-restored g k [] acc u = elim (Bool-cases (str_eq k.0 g)) [ inl a ↦ rw (a) | inr a ↦ rw (a) ]
find-restored g k (e ∷ es) acc u = elim (Bool-cases (str_eq e.0.0 g)) [
  | inl a ↦
      subst
        (λ h.
          find offset_key_eq k (restored h (e ∷ es) acc)
          ≡ behind h k (e ∷ es) (find offset_key_eq k acc))
        (str-Lawful.sound e.0.0 g a)
        (ap
            (λ b.
              find offset_key_eq k
                (restored e.0.0 es (if b then put offset_key_eq e.0 e.1 acc else acc)))
            (str-Lawful.complete e.0.0)
          ∙ find-restored e.0.0 k es (put offset_key_eq e.0 e.1 acc) u.1
          ∙ behind-put k e es acc u.0)
  | inr a ↦ rw (a) (find-restored g k es acc u.1 ∙ other_group g k e es acc a)
]
