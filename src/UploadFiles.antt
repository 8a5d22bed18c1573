-- ===== src/UploadFiles.antt =====
-- ComputeUploadFiles of pkg/upload/file.go: the files of the folders of a task. What the operating
-- system answers, doublestar.PathMatch and the birth times are parameters; an answer does not
-- change while the files are found. A file that is read is one of the sizes that `os.FileInfo`
-- gives. No result: the fuel of a walk ran out.
pub mod Gathered
pub mod Wanted
pub mod Told
pub mod Total
mod Tests
use co_scout.Prelude.{
  ℕ, Bool, true, false, not, ◌&&◌, ◌||◌, List, [], ◌∷◌, ◌++◌, Option, none, some, if◌then◌else◌,
  Text, insert,
}
use co_scout.Prelude.Int.{ℤ, pos, ltb_ℤ}
use co_scout.FileState as State
use co_scout.FileState.Update.{DirEntry, matches_whitelist}
use co_scout.RecordCache.{FileInfo}
use co_scout.SymWalk.{Disk, Info, WalkError, walk_file_paths}
use co_scout.TimeWindow.{Time, TimeWindowError, Kind, validate_time_window_at}
use co_scout.Collecting.RuleFiles.{
  Paths, FileInfos, walk_options, get_real_file_info, relative_name, add_walked,
}

-- The times are in seconds; `mod_time` is that of os.Stat. `birth_time` is nothing where times.Stat
-- fails, and nothing inside where the file has no birth time.
pub record Site : Type 0 where
  pub disk : Disk
  pub paths : Paths
  pub readable : Text → Bool
  pub path_match : Text → Text → Option Bool
  pub read_dir : Text → Option (List DirEntry)
  pub mod_time : Text → ℤ
  pub birth_time : Text → Option (Option ℤ)

pub record Task : Type 0 where
  pub scan_folders : List Text
  pub additional_files : List Text
  pub white_list : List Text
  pub recursively_walk_dirs : Bool
  pub start_time : ℤ
  pub end_time : ℤ

pub record Found : Type 0 where
  pub files : FileInfos
  pub no_permission_folders : List Text

abbrev pub nothing_found : Found
nothing_found = record { files = []; no_permission_folders = [] }

-- What a path is after the checks: not readable, by the name that is not, or without an info, or a
-- real path.
pub data Target : Type 0 where
  denied : Text → Target
  missing : Target
  real : Text → Info → Target

module _ (site : Site) where
  unfoldable pub real_target : Option (Text × Info) → Target
  real_target none = missing
  real_target (some (path, info)) = if site.readable path then real path info else denied path

  unfoldable pub target : Text → Target
  unfolding real_target
  target path =
      if site.readable path
      then real_target (get_real_file_info site.disk site.paths path)
      else denied path

  unfoldable pub deny : Text → Found → Found
  deny path found = record found {
    no_permission_folders = found.no_permission_folders ++ path ∷ [];
  }

  unfoldable pub put : Text → Text → ℤ → FileInfos → FileInfos
  put path name size files =
      insert path (record { path = path; size = size; sha256 = []; file_name = name }) files

  module _ (task : Task) where
    unfoldable pub whitelisted : Text → Bool
    whitelisted path = matches_whitelist site.path_match task.white_list path

    unfoldable pub start_of : ℤ → Option ℤ → ℤ
    start_of modified none = modified
    start_of modified (some birth) = birth

    unfoldable pub overlaps : ℤ → ℤ → Bool
    overlaps from to = not (ltb_ℤ task.end_time from) && not (ltb_ℤ to task.start_time)

    unfoldable pub put_timed : Text → Text → ℤ → ℤ → Option (Option ℤ) → FileInfos → FileInfos
    unfolding put start_of overlaps
    put_timed root path size modified none files = files
    put_timed root path size modified (some birth) files =
        if overlaps (start_of modified birth) modified
        then put path (relative_name site.disk site.paths root path) size files
        else files

    unfoldable pub process_file : Text → Text → ℤ → ℤ → FileInfos → FileInfos
    unfolding whitelisted put_timed
    process_file root path size modified files =
        if whitelisted path
        then put_timed root path size modified (site.birth_time path) files
        else files

    unfoldable pub visit_target : Text → Target → FileInfos → FileInfos
    unfolding process_file
    visit_target root (denied path) files = files
    visit_target root missing files = files
    visit_target root (real path info) files =
        if info.is_dir
        then files
        else process_file root path (pos info.size) (site.mod_time path) files

    unfoldable pub visit_file : Text → Text → FileInfos → FileInfos × Option WalkError
    unfolding visit_target target
    visit_file root path files = (visit_target root (target path) files, none)

    unfoldable pub entry_file : Text → DirEntry → Option State.FileInfo → FileInfos → FileInfos
    unfolding process_file
    entry_file root e none files = files
    entry_file root e (some info) files = process_file root e.path info.size info.mod_unix files

    unfoldable pub entry_files : Text → List DirEntry → FileInfos → FileInfos
    unfolding entry_file
    entry_files root [] files = files
    entry_files root (e ∷ es) files =
        if e.is_dir || not (site.readable e.path)
        then entry_files root es files
        else entry_files root es (entry_file root e e.info files)

    unfoldable pub read_folder : Text → Option (List DirEntry) → FileInfos → FileInfos
    unfolding entry_files
    read_folder root none files = files
    read_folder root (some es) files = entry_files root es files

    unfoldable pub with_files : Found → Option FileInfos → Option Found
    with_files found none = none
    with_files found (some files) = some (record found { files = files })

    -- A path that is no directory is taken whatever its times are.
    unfoldable pub scan_target : ℕ → Target → Found → Option Found
    unfolding deny put whitelisted read_folder visit_file with_files
    scan_target fuel (denied path) found = some (deny path found)
    scan_target fuel missing found = some found
    scan_target fuel (real path info) found =
        if not info.is_dir
        then (if whitelisted path
            then some (record found {
              files = put path (site.paths.base path) (pos info.size) found.files;
            })
            else some found)
        else if task.recursively_walk_dirs
        then with_files found (
            add_walked site.disk site.paths found.files
              (walk_file_paths site.disk walk_options fuel path (visit_file path) []))
        else some (record found { files = read_folder path (site.read_dir path) found.files })

    unfoldable pub scan_folders : ℕ → List Text → Found → Option Found
    unfolding scan_target target
    scan_folders fuel [] found = some found
    scan_folders fuel (folder ∷ folders) found = elim (scan_target fuel (target folder) found) [
      | none ↦ none
      | some found' ↦ scan_folders fuel folders found'
    ]

    unfoldable pub additional_target : Text → Target → FileInfos → FileInfos
    unfolding put
    additional_target parent (denied path) files = files
    additional_target parent missing files = files
    additional_target parent (real path info) files =
        put path (relative_name site.disk site.paths parent path) (pos info.size) files

    unfoldable pub visit_additional : Text → Text → FileInfos → FileInfos × Option WalkError
    unfolding additional_target target
    visit_additional parent path files = (additional_target parent (target path) files, none)

    unfoldable pub add_target : ℕ → Target → Found → Option Found
    unfolding deny put visit_additional with_files
    add_target fuel (denied path) found = some (deny path found)
    add_target fuel missing found = some found
    add_target fuel (real path info) found =
        if not info.is_dir
        then some
            (record found { files = put path (site.paths.base path) (pos info.size) found.files })
        else with_files found (
            add_walked site.disk site.paths found.files (
              walk_file_paths site.disk walk_options fuel path
                (visit_additional (site.disk.dir (site.disk.clean path))) []))

    unfoldable pub add_additional : ℕ → List Text → Found → Option Found
    unfolding add_target target
    add_additional fuel [] found = some found
    add_additional fuel (file ∷ files) found = elim (add_target fuel (target file) found) [
      | none ↦ none
      | some found' ↦ add_additional fuel files found'
    ]

    -- A window that is not ready is an empty success.
    unfoldable pub refused : TimeWindowError → Found × Option TimeWindowError
    refused e = elim e.kind [
      | Kind.invalid_time_window ↦ (nothing_found, some e)
      | Kind.time_window_not_ready ↦ (nothing_found, none)
    ]

    unfoldable pub accepted : Option Found → Option (Found × Option TimeWindowError)
    accepted none = none
    accepted (some found) = some (found, none)

    unfoldable pub scan_all : ℕ → Option Found
    unfolding scan_folders add_additional
    scan_all fuel = elim (scan_folders fuel task.scan_folders nothing_found) [
      | none ↦ none
      | some found ↦ add_additional fuel task.additional_files found
    ]

    unfoldable pub compute_upload_files : ℕ → Time → Option (Found × Option TimeWindowError)
    unfolding scan_all refused accepted
    compute_upload_files fuel now =
        elim (validate_time_window_at task.start_time task.end_time now) [
          | some e ↦ some (refused e)
          | none ↦ accepted (scan_all fuel)
        ]
