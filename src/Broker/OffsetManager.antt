-- ===== src/Broker/OffsetManager.antt =====
-- broker/src/offset_manager.rs: the committed offsets of the groups, in memory and in one text file
-- per group. A group id becomes a part of a path, which can lead out of the data directory where it
-- has a '/'. Creating and writing a file can fail; the directory, once made, can be read.
pub mod Text
pub mod Loading
pub mod Files
pub mod Persistence
pub mod Restart
use Prim.Native.Char.{Char, char, code}
use gaffa.Prelude.{
  ℕ, zero, suc, ◌+◌, ◌-◌, ◌*◌, ◌^◌, ◌<>◌, String, str_eq, Bool, true, false, not, ◌&&◌, ◌||◌,
  Option, none, some, List, [], ◌∷◌, map, ltb, leb, ◌==◌, if◌then◌else◌,
}
use gaffa.Prelude.Decimal.{show}
use gaffa.Prelude.Maps.{find, put, erase}
use gaffa.Common.Error.{Result, ok, err, io}
use gaffa.Broker.OffsetManager.Text.{lines, parse_line, line_of}

-- A group, a topic and a partition.
abbrev pub OffsetKey : Type 0
OffsetKey = String × String × ℕ

abbrev pub offset_key_eq : OffsetKey → OffsetKey → Bool
offset_key_eq k l = str_eq k.0 l.0 && (str_eq k.1 l.1 && (k.2 == l.2))

-- `resolve` is where a path leads that is joined to the data directory, as the file system finds it:
-- the name of a file of the directory, or for a file elsewhere a text with a '/' in it. `files` is
-- what the files hold, by these names.
pub record OffsetManager : Type 0 where
  pub offsets : List (OffsetKey × ℕ)
  pub files : List (String × String)
  pub resolve : String → String

-- `OffsetManager::new` over a directory that may hold files of an earlier run.
unfoldable pub new : (String → String) → List (String × String) → OffsetManager
new resolve files = record { offsets = []; files = files; resolve = resolve }

-- The loop over the lines of a file; a line that cannot be read is left out.
unfoldable pub load_lines : String → List String → List (OffsetKey × ℕ) → List (OffsetKey × ℕ)
unfolding parse_line
load_lines group_id [] offsets = offsets
load_lines group_id (l ∷ ls) offsets = load_lines group_id ls (elim (parse_line l) [
  | none ↦ offsets
  | some (topic, partition, offset) ↦ put offset_key_eq (group_id, topic, partition) offset offsets
])

-- What stands before the extension ".offsets" of a file's name, if it has that extension.
unfoldable pub before_extension : String → Option String
before_extension String.[] = none
before_extension (String.◌∷◌ c s) = elim (before_extension s) [
  | none ↦ if str_eq (String.◌∷◌ c s) ".offsets" then some "" else none
  | some stem ↦ some (String.◌∷◌ c stem)
]

unfoldable pub group_of_file : String → Option String
unfolding before_extension
group_of_file name = elim (before_extension name) [
  | none ↦ none
  | some String.[] ↦ none
  | some (String.◌∷◌ c s) ↦ some (String.◌∷◌ c s)
]

-- Whether a text has a '/'.
unfoldable pub has_slash : String → Bool
has_slash String.[] = false
has_slash (String.◌∷◌ c s) = let rest = has_slash s in (code c == 47) || rest

-- The loop over the files of the directory; files elsewhere are not read.
unfoldable pub load_files : List (String × String) → List (OffsetKey × ℕ) → List (OffsetKey × ℕ)
unfolding has_slash group_of_file load_lines lines
load_files [] offsets = offsets
load_files (f ∷ fs) offsets = load_files fs (
    if has_slash f.0 then offsets else (elim (group_of_file f.0) [
      | none ↦ offsets
      | some group_id ↦ load_lines group_id (lines f.1) offsets
    ]))

unfoldable pub load : OffsetManager → OffsetManager
unfolding load_files
load m = record m { offsets = load_files m.files m.offsets }

-- The lines of a group's offsets.
unfoldable pub text_of : String → List (OffsetKey × ℕ) → String
unfolding line_of
text_of group_id [] = ""
text_of group_id (e ∷ es) =
    let rest = text_of group_id es in
    if str_eq e.0.0 group_id then line_of e.0.1 e.0.2 e.1 <> rest else rest

abbrev pub file_of : String → String
file_of group_id = group_id <> ".offsets"

-- How the writing of a file went: not created, or broken off with a text in the file.
pub data Write : Type 0 where
  written : Write
  create_failed : String → Write
  write_failed : String → String → Write

unfoldable pub persist_group : OffsetManager → Write → String → OffsetManager × Result (Unit {0})
unfolding text_of
persist_group m written group_id = (
  record m {
    files = put str_eq (m.resolve (file_of group_id)) (text_of group_id m.offsets) m.files;
  },
  ok tt,
)
persist_group m (create_failed problem) group_id = (m, err (io problem))
persist_group m (write_failed problem left) group_id =
    (record m { files = put str_eq (m.resolve (file_of group_id)) left m.files }, err (io problem))

unfoldable pub commit_offset :
    OffsetManager → Write → String → String → ℕ → ℕ → OffsetManager × Result (Unit {0})
unfolding persist_group
commit_offset m write group_id topic partition offset =
    persist_group
      (record m { offsets = put offset_key_eq (group_id, topic, partition) offset m.offsets }) write
      group_id

unfoldable pub fetch_offset : OffsetManager → String → String → ℕ → Result (Option ℕ)
fetch_offset m group_id topic partition =
    ok (find offset_key_eq (group_id, topic, partition) m.offsets)

unfoldable pub group_offsets : String → List (OffsetKey × ℕ) → List ((String × ℕ) × ℕ)
group_offsets group_id [] = []
group_offsets group_id (e ∷ es) =
    let rest = group_offsets group_id es in
    if str_eq e.0.0 group_id then ((e.0.1, e.0.2), e.1) ∷ rest else rest

unfoldable pub get_group_offsets : OffsetManager → String → List ((String × ℕ) × ℕ)
unfolding group_offsets
get_group_offsets m group_id = group_offsets group_id m.offsets

-- `retain` of the offsets of other groups.
unfoldable pub retain_others : String → List (OffsetKey × ℕ) → List (OffsetKey × ℕ)
retain_others group_id [] = []
retain_others group_id (e ∷ es) =
    let rest = retain_others group_id es in if str_eq e.0.0 group_id then rest else e ∷ rest

-- `removal` is the error of `remove_file`, if it has one; it is not called without a file.
unfoldable pub delete_group :
    OffsetManager → Option String → String → OffsetManager × Result (Unit {0})
unfolding retain_others
delete_group m removal group_id =
    let kept : OffsetManager = record m { offsets = retain_others group_id m.offsets } in
    elim (find str_eq (m.resolve (file_of group_id)) m.files) [
      | none ↦ (kept, ok tt)
      | some text ↦ elim removal [
        | none ↦
            (record kept { files = erase str_eq (m.resolve (file_of group_id)) m.files }, ok tt)
        | some problem ↦ (kept, err (io problem))
      ]
    ]
