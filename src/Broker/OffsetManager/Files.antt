-- ===== src/Broker/OffsetManager/Files.antt =====
-- What `load` of broker/src/offset_manager.rs finds in the files of the groups.
use Prim.Native.Char.{code}
use Prim.Native.String.{[] as nil, ◌∷◌ as ◌∷∷◌}
use text.Mathlib.TextLemmas.{nil-append, cons-append}
use gaffa.Prelude.{
  ℕ, ◌≡◌, refl, sym, ap, ◌∙◌, String, str_eq, ◌||◌, ◌==◌, Bool, true, false, Option, none, some,
  List, [], ◌∷◌, if◌then◌else◌, Bool-cases, All, inl, inr,
}
use gaffa.Prelude.Maps.{find, Unique, str-Lawful}
use gaffa.Broker.OffsetManager.Loading.{
  IsSafe, restored, load_lines-text_of, find-restored, behind, or_else,
}
use gaffa.Broker.OffsetManager.{
  OffsetKey, offset_key_eq, load_files, has_slash, group_of_file, before_extension, text_of,
  file_of,
}

before_extension-file_of : (g : String) → before_extension (file_of g) ≡ some g
unfolding before_extension
before_extension-file_of nil = ap before_extension (nil-append ".offsets")
before_extension-file_of (c ∷∷ s) =
    ap before_extension (cons-append c s ".offsets")
    ∙ rw (before_extension, before_extension-file_of s)

-- A group id that names a file of the directory with an extension.
abbrev pub IsId : String → Type 0
IsId nil = ⊥
IsId (c ∷∷ s) = has_slash (c ∷∷ s) ≡ false

neither : (a b : Bool) → (a || b) ≡ false → (a ≡ false) × (b ≡ false)
neither false false h = (refl, refl)
neither false true h = cc
neither true b h = cc

has_slash-file_of : (g : String) → has_slash g ≡ false → has_slash (file_of g) ≡ false
unfolding has_slash
has_slash-file_of nil h = refl
has_slash-file_of (c ∷∷ s) h =
    let (here, there) = neither (code c == 47) (has_slash s) h in
    ap has_slash (cons-append c s ".offsets") ∙ rw (has_slash, here) (has_slash-file_of s there)

pub IsId-file_of : (g : String) → IsId g → has_slash (file_of g) ≡ false
IsId-file_of nil h = absurd h
IsId-file_of (c ∷∷ s) h = has_slash-file_of (c ∷∷ s) h

group_of_file-file_of : (g : String) → IsId g → group_of_file (file_of g) ≡ some g
unfolding group_of_file
group_of_file-file_of nil h = absurd h
group_of_file-file_of (c ∷∷ s) h = rw (group_of_file, before_extension-file_of (c ∷∷ s))

pub file_of_inj : (g h : String) → file_of g ≡ file_of h → g ≡ h
file_of_inj g h e =
    some_inj (sym (before_extension-file_of g) ∙ ap before_extension e ∙ before_extension-file_of h)
  where
    some_inj : {a b : String} → some a ≡ some b → a ≡ b
    some_inj p = cc

pub file_of_differ : (g h : String) → str_eq g h ≡ false → str_eq (file_of g) (file_of h) ≡ false
file_of_differ g h d = elim (Bool-cases (str_eq (file_of g) (file_of h))) [
  | inr e ↦ e
  | inl e ↦
      let same : g ≡ h = file_of_inj g h (str-Lawful.sound (file_of g) (file_of h) e) in
      let equal : str_eq g h ≡ true = ap (str_eq g) (sym same) ∙ str-Lawful.complete g in
      cc (d, equal)
]

-- The file has the text of a group's offsets.
abbrev pub Saved : List (OffsetKey × ℕ) → String × String → Type 0
Saved offsets f = (g : String) × IsId g × (f.0 ≡ file_of g) × (f.1 ≡ text_of g offsets)

or_none : (x : Option ℕ) → or_else x none ≡ x
or_none none = refl
or_none (some n) = refl

module _ (k : OffsetKey) (offsets : List (OffsetKey × ℕ)) (safe : All IsSafe offsets)
    (unique : Unique offset_key_eq offsets) where
  stays :
      (g : String) (found : Option ℕ)
      → found ≡ find offset_key_eq k offsets
      → behind g k offsets found ≡ find offset_key_eq k offsets
  stays g found e = ap (behind g k offsets) e ∙ both (str_eq k.0 g) (find offset_key_eq k offsets)
    where
      both : (b : Bool) (x : Option ℕ) → (if b then or_else x x else x) ≡ x
      both true none = refl
      both true (some n) = refl
      both false x = refl

  load_step :
      (f : String × String) (fs : List (String × String)) (acc : List (OffsetKey × ℕ)) (g : String)
      → IsId g
      → f.0 ≡ file_of g
      → f.1 ≡ text_of g offsets
      → load_files (f ∷ fs) acc ≡ load_files fs (restored g offsets acc)
  unfolding load_files
  load_step f fs acc g i n t =
      let named : group_of_file f.0 ≡ some g = ap group_of_file n ∙ group_of_file-file_of g i in
      rw (
        load_files,
        ap has_slash n ∙ IsId-file_of g i,
        named,
        t,
        load_lines-text_of g offsets acc safe,
      )

  -- What is found of the key has been settled.
  pub settled :
      (fs : List (String × String)) (acc : List (OffsetKey × ℕ))
      → All (Saved offsets) fs
      → find offset_key_eq k acc ≡ find offset_key_eq k offsets
      → find offset_key_eq k (load_files fs acc) ≡ find offset_key_eq k offsets
  unfolding load_files
  settled [] acc h e = e
  settled (f ∷ fs) acc h e =
      let (g, i, n, t) = h.0 in
      ap (find offset_key_eq k) (load_step f fs acc g i n t)
      ∙ settled fs (restored g offsets acc) h.1
          (find-restored g k offsets acc unique ∙ stays g (find offset_key_eq k acc) e)

  skip :
      (f : String × String) (fs : List (String × String)) (g : String)
      → f.0 ≡ file_of g
      → str_eq k.0 g ≡ false
      → find str_eq (file_of k.0) (f ∷ fs) ≡ find str_eq (file_of k.0) fs
  skip f fs g n d = rw (n, file_of_differ k.0 g d)

  -- A file of the key's group settles it.
  pub loaded :
      (fs : List (String × String)) (acc : List (OffsetKey × ℕ)) (text : String)
      → All (Saved offsets) fs
      → find offset_key_eq k acc ≡ none
      → find str_eq (file_of k.0) fs ≡ some text
      → find offset_key_eq k (load_files fs acc) ≡ find offset_key_eq k offsets
  unfolding load_files
  loaded [] acc text h e f = cc
  loaded (f ∷ fs) acc text h e found =
      let (g, i, n, t) = h.0 in
      ap (find offset_key_eq k) (load_step f fs acc g i n t) ∙ elim (Bool-cases (str_eq k.0 g)) [
        | inl same ↦ settled fs (restored g offsets acc) h.1 (
            find-restored g k offsets acc unique
            ∙ rw (e, same) (or_none (find offset_key_eq k offsets)))
        | inr other ↦
            loaded fs (restored g offsets acc) text h.1
              (find-restored g k offsets acc unique ∙ rw (other) e)
              (sym (skip f fs g n other) ∙ found)
      ]
