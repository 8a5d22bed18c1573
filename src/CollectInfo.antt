-- ===== src/CollectInfo.antt =====
-- internal/model/collect_info.go: what is collected for one trigger of the rules, in a draft until
-- it is published. A file holds what was encoded, or something that does not decode; a number of
-- type float64 is given by its bits, a time in nanoseconds. os.CreateTemp gives a name that is not
-- in use.
pub mod Saving
mod Tests
use co_scout.Prelude.{
  ℕ, Bool, true, false, not, ◌||◌, List, [], ◌∷◌, ◌++◌, Option, none, some, if◌then◌else◌, Text,
  codes, lookup, insert, delete,
}
use co_scout.Prelude.Int.{ℤ}

abbrev pub Float : Type 0
Float = ℕ

pub record Cut : Type 0 where
  pub extra_files : List Text
  pub start : ℤ
  pub end : ℤ
  pub white_list : List Text

pub record Moment : Type 0 where
  pub title : Text
  pub description : Text
  pub timestamp : Float
  pub start_time : Float
  pub custom_fields : List (Text × Text)
  pub code : Text
  pub create_task : Bool
  pub sync_task : Bool
  pub assign_to : Text

-- The entries that are put into the map `Record`.
pub record Titles : Type 0 where
  pub title : Text
  pub description : Text

-- The entries that are put into the map `DiagnosisTask`.
pub record DiagnosisTask : Type 0 where
  pub rule_name : Text
  pub rule_display_name : Text
  pub trigger_time : Float
  pub start_time : Float
  pub end_time : Float

pub record CollectInfo : Type 0 where
  pub project_name : Text
  pub titles : Option Titles
  pub labels : List Text
  pub diagnosis_task : Option DiagnosisTask
  pub cut : Option Cut
  pub moments : List Moment
  pub skip : Bool
  pub id : Text

-- `CollectInfo{Id: id}`.
abbrev pub new_info : Text → CollectInfo
new_info id = record {
  project_name = [];
  titles = none;
  labels = [];
  diagnosis_task = none;
  cut = none;
  moments = [];
  skip = false;
  id = id;
}

abbrev pub Files : Type 0
Files = List (Text × Option CollectInfo)

unfoldable pub file_path : Text → Text → Text
file_path folder id = folder ++ (codes "/" ++ (id ++ codes ".json"))

unfoldable pub draft_file_path : Text → Text → Text
unfolding file_path
draft_file_path folder id = file_path folder id ++ codes ".draft"

-- Nothing: the file is missing or does not decode.
unfoldable pub load_from_file : Files → Text → Text → Option CollectInfo
load_from_file files id path = elim (lookup path files) [
  | none ↦ none
  | some content ↦ elim content [ none ↦ none | some info ↦ some (record info { id = id }) ]
]

unfoldable pub load : Text → Files → Text → Option CollectInfo
unfolding load_from_file file_path
load folder files id = load_from_file files id (file_path folder id)

unfoldable pub load_draft : Text → Files → Text → Option CollectInfo
unfolding load_from_file draft_file_path
load_draft folder files id = load_from_file files id (draft_file_path folder id)

-- The calls of a save that can fail.
pub data SaveStep : Type 0 where
  make_directory create_temp write_temp chmod_temp close_temp rename_temp : SaveStep

-- `os.Rename` of a file that is there.
unfoldable pub rename : Text → Text → Option CollectInfo → Files → Files
rename source target content files = insert target content (delete source files)

-- A write that fails leaves something in the temporary file that does not decode. The deferred
-- removal of the temporary file is taken to succeed.
unfoldable pub save_to_file : (SaveStep → Bool) → Text → Text → CollectInfo → Files → Files × Bool
unfolding rename
save_to_file fails temp path info files =
    if fails make_directory || fails create_temp
    then (files, false)
    else if fails write_temp
    then (delete temp (insert temp none files), false)
    else if fails chmod_temp || fails close_temp || fails rename_temp
    then (delete temp (insert temp (some info) files), false)
    else (delete temp (rename temp path (some info) (insert temp (some info) files)), true)

-- `ensureID`, with the identifier that is made up if there is none.
unfoldable pub ensure_id : Text → CollectInfo → CollectInfo
ensure_id fresh info = elim info.id [ [] ↦ record info { id = fresh } | c ∷ cs ↦ info ]

unfoldable pub save : (SaveStep → Bool) → Text → Text → Text → CollectInfo → Files → Files × Bool
save fails temp fresh folder info files =
    save_to_file fails temp (file_path folder (ensure_id fresh info).id) (ensure_id fresh info)
      files

unfoldable pub save_draft :
    (SaveStep → Bool) → Text → Text → Text → CollectInfo → Files → Files × Bool
save_draft fails temp fresh folder info files =
    save_to_file fails temp (draft_file_path folder (ensure_id fresh info).id)
      (ensure_id fresh info) files

-- The end of a publication, where the draft was read: it wants a cut, and its rename can fail.
unfoldable pub publish_loaded : Option Cut → Bool → Text → CollectInfo → Files → Files × Bool
unfolding rename draft_file_path
publish_loaded none renames folder info files = (files, false)
publish_loaded (some cut) renames folder info files =
    if renames
    then (
      rename (draft_file_path folder info.id) (file_path folder info.id) (some info) files,
      true,
    )
    else (files, false)

unfoldable pub publish_collect_info : Bool → Text → Text → Files → Files × Bool
unfolding publish_loaded load_draft
publish_collect_info renames folder id files = elim (load_draft folder files id) [
  | none ↦ (files, false)
  | some info ↦ publish_loaded info.cut renames folder info files
]

-- `Clean` gives the path of the file that it removed.
unfoldable pub clean : (Text → Bool) → Bool → Text → Text → Files → Files × Text
unfolding file_path
clean readable removes folder id files =
    let path = file_path folder id in
    if readable path
    then (if removes then (delete path files, path) else (files, []))
    else (files, [])
