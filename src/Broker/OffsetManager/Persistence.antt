-- ===== src/Broker/OffsetManager/Persistence.antt =====
-- The files of broker/src/offset_manager.rs follow what is in memory.
use gaffa.Prelude.{
  ℕ, ◌<>◌, ◌≡◌, refl, sym, ap, ◌∙◌, String, str_eq, false, none, some, List, [], ◌∷◌, if◌then◌else◌,
  Bool-cases, All, ◌⊎◌, inl, inr,
}
use gaffa.Prelude.Maps.{
  find, put, Unique, str-Lawful, find-put_same, find-put_other, put-Unique, same_sym,
}
use gaffa.Common.Error.{ok}
use gaffa.Broker.OffsetManager.Text.{line_of}
use gaffa.Broker.OffsetManager.Loading.{IsSafe, offset_key-Lawful, parts}
use gaffa.Broker.OffsetManager.Files.{IsId, IsId-file_of, file_of_differ}
use gaffa.Broker.OffsetManager.{
  OffsetManager, OffsetKey, Write, has_slash, offset_key_eq, text_of, file_of, commit_offset,
  persist_group,
}

module _ (k : OffsetKey) (v : ℕ) where
  text_of-put_other :
      (g : String) (es : List (OffsetKey × ℕ))
      → str_eq k.0 g ≡ false
      → text_of g (put offset_key_eq k v es) ≡ text_of g es
  unfolding text_of
  text_of-put_other g [] d = rw (d)
  text_of-put_other g (e ∷ es) d = elim (Bool-cases (offset_key_eq k e.0)) [
    | inl a ↦
        rw (a)
          (rw (d, ap (λ x. str_eq x g) (sym (str-Lawful.sound k.0 e.0.0 (parts k e.0 a).0)) ∙ d))
    | inr a ↦ rw (a) (
        ap (λ rest. if str_eq e.0.0 g then line_of e.0.1 e.0.2 e.1 <> rest else rest)
          (text_of-put_other g es d))
  ]

  put-IsSafe :
      (es : List (OffsetKey × ℕ))
      → IsSafe (k, v)
      → All IsSafe es
      → All IsSafe (put offset_key_eq k v es)
  put-IsSafe [] s h = (s, tt)
  put-IsSafe (e ∷ es) s h = elim (Bool-cases (offset_key_eq k e.0)) [
    | inl a ↦ rw (a) (s, h.1)
    | inr a ↦ rw (a) (h.0, put-IsSafe es s h.1)
  ]

-- A file stands under the name of a group.
abbrev pub IsNamed : String × String → Type 0
IsNamed f = (g : String) × IsId g × (f.0 ≡ file_of g)

put-IsNamed :
    (g text : String) (fs : List (String × String))
    → IsId g
    → All IsNamed fs
    → All IsNamed (put str_eq (file_of g) text fs)
put-IsNamed g text [] i h = ((g, i, refl), tt)
put-IsNamed g text (f ∷ fs) i h = elim (Bool-cases (str_eq (file_of g) f.0)) [
  | inl a ↦ rw (a) ((g, i, refl), h.1)
  | inr a ↦ rw (a) (h.0, put-IsNamed g text fs i h.1)
]

-- A path without a '/' leads to the file of that name in the directory.
abbrev pub IsFlat : (String → String) → Type 0
IsFlat resolve = (name : String) → has_slash name ≡ false → resolve name ≡ name

-- The files are those of the groups in memory, with what is in memory.
pub record IsPersisted (m : OffsetManager) : Type 0 where
  pub flat : IsFlat m.resolve
  pub unique : Unique offset_key_eq m.offsets
  pub safe : All IsSafe m.offsets
  pub unique_files : Unique str_eq m.files
  pub named : All IsNamed m.files
  pub texts :
      (g text : String) → find str_eq (file_of g) m.files ≡ some text → text ≡ text_of g m.offsets
  pub covered :
      (k : OffsetKey)
      → (find offset_key_eq k m.offsets ≡ none)
        ⊎ ((text : String) × (find str_eq (file_of k.0) m.files ≡ some text))

pub record Commit : Type 0 where
  pub group_id : String
  pub topic : String
  pub partition : ℕ
  pub offset : ℕ

abbrev key_of : Commit → OffsetKey
key_of c = (c.group_id, c.topic, c.partition)

abbrev pub IsSound : Commit → Type 0
IsSound c = IsId c.group_id × IsSafe (key_of c, c.offset)

-- A commit whose file was written.
abbrev pub committed : OffsetManager → Commit → OffsetManager
committed m c =
    let offsets = put offset_key_eq (key_of c) c.offset m.offsets in
    record m {
      offsets = offsets;
      files = put str_eq (file_of c.group_id) (text_of c.group_id offsets) m.files;
    }

pub commit_offset-committed :
    (m : OffsetManager) (c : Commit)
    → IsFlat m.resolve
    → IsId c.group_id
    → commit_offset m Write.written c.group_id c.topic c.partition c.offset ≡ (committed m c, ok tt)
unfolding commit_offset persist_group
commit_offset-committed m c flat i =
    rw (commit_offset, persist_group, flat (file_of c.group_id) (IsId-file_of c.group_id i))

module _ (m : OffsetManager) (c : Commit) (h : IsPersisted m) where
  abbrev text : String
  text = text_of c.group_id (committed m c).offsets

  found_file : find str_eq (file_of c.group_id) (committed m c).files ≡ some text
  found_file = find-put_same str_eq str-Lawful (file_of c.group_id) text m.files

  other_file :
      (g : String)
      → str_eq g c.group_id ≡ false
      → find str_eq (file_of g) (committed m c).files ≡ find str_eq (file_of g) m.files
  other_file g d =
      find-put_other str_eq str-Lawful (file_of c.group_id) (file_of g) text m.files
        (file_of_differ g c.group_id d)

  committed_text :
      (g t : String)
      → find str_eq (file_of g) (committed m c).files ≡ some t
      → t ≡ text_of g (committed m c).offsets
  committed_text g t f = elim (Bool-cases (str_eq g c.group_id)) [
    | inl a ↦
        let same : g ≡ c.group_id = str-Lawful.sound g c.group_id a in
        some_inj (sym f ∙ ap (λ x. find str_eq (file_of x) (committed m c).files) same ∙ found_file)
        ∙ ap (λ x. text_of x (committed m c).offsets) (sym same)
    | inr d ↦
        h.texts g t (sym (other_file g d) ∙ f)
        ∙ sym (
            text_of-put_other (key_of c) c.offset g m.offsets
              (same_sym str_eq str-Lawful g c.group_id d))
  ]
    where
      some_inj : {a b : String} → some a ≡ some b → a ≡ b
      some_inj p = cc

  committed_covered :
      (k : OffsetKey)
      → (find offset_key_eq k (committed m c).offsets ≡ none)
        ⊎ ((t : String) × (find str_eq (file_of k.0) (committed m c).files ≡ some t))
  committed_covered k = elim (Bool-cases (str_eq k.0 c.group_id)) [
    | inl a ↦ inr (
      text,
      ap (λ x. find str_eq (file_of x) (committed m c).files) (str-Lawful.sound k.0 c.group_id a)
          ∙ found_file,
    )
    | inr d ↦
        let apart : offset_key_eq k (key_of c) ≡ false = rw (d) in
        let old =
          find-put_other offset_key_eq offset_key-Lawful (key_of c) k c.offset m.offsets apart in
        elim (h.covered k) [ inl e ↦ inl (old ∙ e) | inr (t, f) ↦ inr (t, other_file k.0 d ∙ f) ]
  ]

  pub committed-IsPersisted : IsSound c → IsPersisted (committed m c)
  committed-IsPersisted s = record {
    flat = h.flat;
    unique = put-Unique offset_key_eq offset_key-Lawful (key_of c) c.offset m.offsets h.unique;
    safe = put-IsSafe (key_of c) c.offset m.offsets s.1 h.safe;
    unique_files = put-Unique str_eq str-Lawful (file_of c.group_id) text m.files h.unique_files;
    named = put-IsNamed c.group_id text m.files s.0 h.named;
    texts = committed_text;
    covered = committed_covered;
  }
