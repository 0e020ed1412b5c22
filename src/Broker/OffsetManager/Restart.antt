-- ===== src/Broker/OffsetManager/Restart.antt =====
-- What broker/src/offset_manager.rs has committed it knows again after a restart.
use mathlib.Core.Path.{subst}
use gaffa.Prelude.{
  ℕ, ◌≡◌, refl, sym, ap, ◌∙◌, String, str_eq, none, some, List, [], ◌∷◌, Bool-cases, All, inl, inr,
}
use gaffa.Prelude.Maps.{find, Unique, str-Lawful}
use gaffa.Common.Error.{ok}
use gaffa.Broker.OffsetManager.Files.{Saved, settled, loaded}
use gaffa.Broker.OffsetManager.{
  OffsetManager, OffsetKey, Write, offset_key_eq, text_of, file_of, new, load, commit_offset,
  fetch_offset,
}
use gaffa.Broker.OffsetManager.Persistence.{
  IsFlat, IsNamed, IsPersisted, Commit, IsSound, committed, commit_offset-committed,
  committed-IsPersisted,
}

-- Files with distinct names hold what their names stand for.
all-Saved :
    (offsets : List (OffsetKey × ℕ)) (fs : List (String × String))
    → Unique str_eq fs
    → All IsNamed fs
    → ((g t : String) → find str_eq (file_of g) fs ≡ some t → t ≡ text_of g offsets)
    → All (Saved offsets) fs
all-Saved offsets [] u n h = tt
all-Saved offsets (f ∷ fs) u n h =
    let (g, i, e) = n.0 in
    (
      (g, i, e, h g f.1 (first g e)),
      all-Saved offsets fs u.1 n.1 (λ k t found. h k t (later k t found)),
    )
  where
    first : (g : String) → f.0 ≡ file_of g → find str_eq (file_of g) (f ∷ fs) ≡ some f.1
    first g e = rw (ap (str_eq (file_of g)) e ∙ str-Lawful.complete (file_of g))

    later :
        (k t : String)
        → find str_eq (file_of k) fs ≡ some t
        → find str_eq (file_of k) (f ∷ fs) ≡ some t
    later k t found = elim (Bool-cases (str_eq (file_of k) f.0)) [
      | inr d ↦ rw (d) found
      | inl a ↦
          let gone : find str_eq (file_of k) fs ≡ none =
            ap (λ x. find str_eq x fs) (str-Lawful.sound (file_of k) f.0 a) ∙ u.0 in
          cc (found, gone)
    ]

-- The offset manager after commits, each with its file written.
unfoldable pub commit_all : List Commit → OffsetManager → OffsetManager
commit_all [] m = m
commit_all (c ∷ cs) m =
    commit_all cs (commit_offset m Write.written c.group_id c.topic c.partition c.offset).0

commit_all-IsPersisted :
    (cs : List Commit) (m : OffsetManager)
    → All IsSound cs
    → IsPersisted m
    → IsPersisted (commit_all cs m)
unfolding commit_all
commit_all-IsPersisted [] m s h = h
commit_all-IsPersisted (c ∷ cs) m s h =
    subst (λ r. IsPersisted (commit_all cs r.0)) (sym (commit_offset-committed m c h.flat s.0.0))
      (commit_all-IsPersisted cs (committed m c) s.1 (committed-IsPersisted m c h s.0))

-- The offset manager that is started on the files of another.
abbrev pub restarted : OffsetManager → OffsetManager
restarted m = load (new m.resolve m.files)

load-IsPersisted :
    (m : OffsetManager) (k : OffsetKey)
    → IsPersisted m
    → find offset_key_eq k (restarted m).offsets ≡ find offset_key_eq k m.offsets
unfolding load new
load-IsPersisted m k h =
    let saved = all-Saved m.offsets m.files h.unique_files h.named h.texts in
    elim (h.covered k) [
      | inl e ↦ settled k m.offsets h.safe h.unique m.files [] saved (sym e)
      | inr (t, f) ↦ loaded k m.offsets h.safe h.unique m.files [] t saved refl f
    ]

new-IsPersisted : (resolve : String → String) → IsFlat resolve → IsPersisted (new resolve [])
unfolding new
new-IsPersisted resolve flat = record {
  flat = flat;
  unique = tt;
  safe = tt;
  unique_files = tt;
  named = tt;
  texts = λ g t e. cc;
  covered = λ k. inl refl;
}

-- After any sequence of commits on a new offset manager, each with its file written, a manager that
-- is started on the same files answers `fetch_offset` for every group, topic and partition as the
-- first one does: if a path without a '/' leads to the file of that name in the data directory, no
-- group id that commits is empty or has a '/', topics have no ':', '=', line feed or carriage return
-- in their names, partitions are below 2 ^ 32 and offsets below 2 ^ 64.
pub restart-fetch_offset :
    (resolve : String → String) (cs : List Commit) (group_id topic : String) (partition : ℕ)
    → IsFlat resolve
    → All IsSound cs
    → fetch_offset (restarted (commit_all cs (new resolve []))) group_id topic partition
      ≡ fetch_offset (commit_all cs (new resolve [])) group_id topic partition
unfolding fetch_offset
restart-fetch_offset resolve cs group_id topic partition flat s = ap ok (
    load-IsPersisted (commit_all cs (new resolve [])) (group_id, topic, partition)
      (commit_all-IsPersisted cs (new resolve []) s (new-IsPersisted resolve flat)))
