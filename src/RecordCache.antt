-- ===== src/RecordCache.antt =====
-- internal/model/record_cache.go: what is uploaded for one record, in a file `state.json` of a
-- folder of its own. Every operation holds the mutex of the file (CacheLock), so it is one step on
-- the disk. A file holds what was encoded, or something that does not decode; the encoding leaves
-- the field `cachePath` out. filepath.Clean, filepath.Dir, the formatting of a time and uuid.New
-- are parameters; a number of type float64 is given by its bits, and an entry of the task by its
-- text.
pub mod Updates
mod Tests
use co_scout.Prelude.{
  ℕ, Bool, true, false, not, ◌&&◌, ◌||◌, List, [], ◌∷◌, ◌++◌, Option, none, some, is_some,
  if◌then◌else◌, Text, codes, lookup, insert, delete, trim_space, has_prefix,
}
use co_scout.Prelude.Int.{ℤ}
use co_scout.CollectInfo.{Float, Titles, DiagnosisTask}

pub record FileInfo : Type 0 where
  pub path : Text
  pub size : ℤ
  pub sha256 : Text
  pub file_name : Text

pub record Task : Type 0 where
  pub should_create : Bool
  pub name : Text
  pub title : Text
  pub description : Text
  pub record_name : Text
  pub assignee : Text
  pub sync_task : Bool

pub record Moment : Type 0 where
  pub name : Text
  pub is_new : Bool
  pub title : Text
  pub description : Text
  pub timestamp : Float
  pub duration : Float
  pub metadata : List (Text × Text)
  pub task : Task
  pub event : List (Text × Text)
  pub code : Text
  pub rule_name : Text

pub record RecordCache : Type 0 where
  pub cache_path : Text
  pub uploaded : Bool
  pub skipped : Bool
  pub event_code : Text
  pub project_name : Text
  pub timestamp : ℤ
  pub labels : List Text
  pub titles : Option Titles
  pub moments : List Moment
  pub upload_task : List (Text × Text)
  pub diagnosis_task : Option DiagnosisTask
  pub original_files : List (Text × FileInfo)
  pub uploaded_file_paths : List Text
  pub random_postfix : Text

abbrev pub Disk : Type 0
Disk = List (Text × Option RecordCache)

-- The calls of a save that can fail.
pub data WriteStep : Type 0 where
  make_directory marshal create_temp write_temp chmod_temp close_temp rename_temp : WriteStep

pub record Host : Type 0 where
  pub clean : Text → Text
  pub dir : Text → Text
  pub base_folder : Text
  pub dir_name : ℤ → Text
  pub fresh : Text

abbrev pub is_empty : Text → Bool
is_empty [] = true
is_empty (c ∷ cs) = false

module _ (host : Host) where
  unfoldable pub normalize_record_cache_path : Text → Text
  normalize_record_cache_path path =
      if is_empty (trim_space path) then [] else host.clean (trim_space path)

  unfoldable pub load_content : Text → Option (Option RecordCache) → Option RecordCache
  load_content path none = none
  load_content path (some none) = none
  load_content path (some (some rc)) = some (record rc { cache_path = host.clean path })

  unfoldable pub load_record_cache_file : Text → Disk → Option RecordCache
  unfolding load_content
  load_record_cache_file raw disk =
      let path = normalize_record_cache_path raw in
      if is_empty path then none else load_content path (lookup path disk)

  -- A write that fails leaves something in the temporary file that does not decode.
  unfoldable pub write_record_cache_file :
      (WriteStep → Bool) → Text → Text → RecordCache → Disk → Disk × Bool
  write_record_cache_file fails temp raw rc disk =
      let path = normalize_record_cache_path raw in
      let content = some (record rc { cache_path = [] }) in
      if is_empty path || fails make_directory || fails marshal || fails create_temp
      then (disk, false)
      else if fails write_temp
      then (delete temp (insert temp none disk), false)
      else if fails chmod_temp || fails close_temp || fails rename_temp
      then (delete temp (insert temp content disk), false)
      else (delete temp (insert path content (delete temp (insert temp content disk))), true)

  -- `getBaseFolder`: the postfix is made up once.
  unfoldable pub get_base_folder : RecordCache → RecordCache × Text
  get_base_folder rc =
      let rc' =
        if is_empty rc.random_postfix then record rc { random_postfix = host.fresh } else rc in
      (
        rc',
        host.base_folder
            ++ codes "/"
            ++ host.dir_name rc.timestamp
            ++ codes "_"
            ++ rc'.random_postfix,
      )

  unfoldable pub record_cache_path_locked : RecordCache → RecordCache × Text
  unfolding get_base_folder
  record_cache_path_locked rc =
      let (rc', folder) = get_base_folder rc in
      if is_empty rc.cache_path
      then (rc', folder ++ codes "/.cos/state.json")
      else (rc, rc.cache_path)

  unfoldable pub get_record_cache_path : RecordCache → RecordCache × Text
  unfolding record_cache_path_locked
  get_record_cache_path rc =
      let (rc', path) = record_cache_path_locked rc in (record rc' { cache_path = path }, path)

  unfoldable pub save : (WriteStep → Bool) → Text → RecordCache → Disk → RecordCache × Disk × Bool
  unfolding get_record_cache_path
  save fails temp rc disk =
      let located = get_record_cache_path rc in
      let written = write_record_cache_file fails temp located.1 located.0 disk in
      (located.0, written.0, written.1)

  unfoldable pub load_record_cache : Text → Disk → Option RecordCache
  load_record_cache raw disk =
      let path = normalize_record_cache_path raw in
      if is_empty path then none else load_record_cache_file path disk

  -- The function that is passed gives nothing if it fails.
  unfoldable pub update_loaded :
      (WriteStep → Bool) → Text → Text → Disk → Option RecordCache → Disk × Option RecordCache
  update_loaded fails temp path disk none = (disk, none)
  update_loaded fails temp path disk (some rc) =
      let (disk', saved) = write_record_cache_file fails temp path rc disk in
      (disk', if saved then some rc else none)

  unfoldable pub update_found :
      (WriteStep → Bool)
      → Text
      → Text
      → (RecordCache → Option RecordCache)
      → Disk
      → Option RecordCache
      → Disk × Option RecordCache
  unfolding update_loaded
  update_found fails temp path update disk none = (disk, none)
  update_found fails temp path update disk (some rc) =
      update_loaded fails temp path disk (update rc)

  unfoldable pub update_record_cache :
      (WriteStep → Bool)
      → Text
      → Text
      → (RecordCache → Option RecordCache)
      → Disk
      → Disk × Option RecordCache
  unfolding update_found
  update_record_cache fails temp raw update disk =
      let path = normalize_record_cache_path raw in
      if is_empty path
      then (disk, none)
      else update_found fails temp path update disk (load_record_cache_file path disk)

  -- Without the record caches below a folder.
  remove_below : Text → Disk → Disk
  remove_below folder [] = []
  remove_below folder ((p, content) ∷ disk) =
      let rest = remove_below folder disk in
      if has_prefix p (folder ++ codes "/") then rest else (p, content) ∷ rest

  unfoldable pub record_cache_base_folder : Text → Text
  record_cache_base_folder path = host.dir (host.dir path)

  unfoldable pub get_base_folder_of : RecordCache → Text
  unfolding record_cache_base_folder get_base_folder
  get_base_folder_of rc =
      if is_empty rc.cache_path
      then (get_base_folder rc).1
      else record_cache_base_folder rc.cache_path

  -- The folder that was removed, if it was; whether it can be is given.
  unfoldable pub clean : (Text → Bool) → Bool → RecordCache → Disk → Disk × Text
  unfolding record_cache_base_folder remove_below get_record_cache_path
  clean readable removes rc disk =
      let folder = record_cache_base_folder (get_record_cache_path rc).1 in
      if readable folder && removes then (remove_below folder disk, folder) else (disk, [])

  unfoldable pub copy_from : RecordCache → RecordCache → RecordCache
  copy_from rc other = record rc {
    uploaded = other.uploaded;
    skipped = other.skipped;
    event_code = other.event_code;
    project_name = other.project_name;
    timestamp = other.timestamp;
    labels = other.labels;
    titles = other.titles;
    moments = other.moments;
    upload_task = other.upload_task;
    diagnosis_task = other.diagnosis_task;
    original_files = other.original_files;
    uploaded_file_paths = other.uploaded_file_paths;
    random_postfix = other.random_postfix;
    cache_path = other.cache_path;
  }

  unfoldable pub reloaded : RecordCache → Option RecordCache → RecordCache × Bool
  unfolding copy_from
  reloaded rc none = (rc, false)
  reloaded rc (some other) = (copy_from rc other, true)

  -- The cache in memory, and whether it was read again.
  unfoldable pub reload : RecordCache → Disk → RecordCache × Bool
  unfolding record_cache_path_locked reloaded
  reload rc disk =
      let located = record_cache_path_locked rc in
      reloaded located.0 (load_record_cache_file located.1 disk)

  unfoldable pub update :
      (WriteStep → Bool)
      → Text
      → (RecordCache → Option RecordCache)
      → RecordCache
      → Disk
      → Disk × Option RecordCache
  unfolding get_record_cache_path
  update fails temp change rc disk =
      update_record_cache fails temp (get_record_cache_path rc).1 change disk
