-- ===== src/Collecting/RuleFiles.antt =====
-- ComputeRuleFileInfos of pkg/upload/file.go, with the files of a directory from the walk of
-- pkg/utils/symwalk.go, and GetRealFileInfo of pkg/utils/file.go. os.Stat and the functions of
-- path/filepath are parameters. No result: the fuel of a walk ran out.
use co_scout.Prelude.{
  ℕ, ◌≡◌, refl, Bool, true, false, List, [], ◌∷◌, Option, none, some, if◌then◌else◌, Text, codes,
  has_prefix, insert, is_some, suc, ◌+◌, ◌*◌, ◌≤◌, length, Bool-cases, Option-cases, inl, inr, sym,
  ap, ◌∙◌,
}
use mathlib.Core.List.{reverse}
use co_scout.Prelude.Int.{pos}
use co_scout.FileState.{FileState}
use co_scout.RecordCache.{FileInfo}
use co_scout.SymWalk.{
  Disk, SymWalkOptions, Info, ok, err, WalkError, Outcome, walk_file_paths, file_walk_fn,
}
use co_scout.SymWalk.Finite.{IsFinite}
use co_scout.SymWalk.Termination.{sym_walk-returns}

pub record Paths : Type 0 where
  pub stat : Text → Option Info
  pub base : Text → Text
  pub join : Text → Text → Text
  pub rel : Text → Text → Option Text

abbrev pub FileInfos : Type 0
FileInfos = List (Text × FileInfo)

unfoldable pub has_suffix : Text → Text → Bool
has_suffix s suffix = has_prefix (reverse s) (reverse suffix)

abbrev pub walk_options : SymWalkOptions
walk_options = record {
  follow_symlinks = true;
  skip_permission_errors = true;
  max_files = 99999;
  skip_empty_files = true;
}

module _ (disk : Disk) (paths : Paths) where
  unfoldable pub is_symlink_path : Text → Bool
  is_symlink_path path = elim (disk.lstat path) [ err e ↦ false | ok info ↦ info.is_symlink ]

  stat_at : Text → Option Info → Option (Text × Info)
  stat_at path none = none
  stat_at path (some info) = some (path, info)

  -- The path behind a link, with what os.Stat tells of it.
  unfoldable pub get_real_file_info : Text → Option (Text × Info)
  unfolding is_symlink_path stat_at
  get_real_file_info [] = none
  get_real_file_info (c ∷ cs) =
      if is_symlink_path (c ∷ cs)
      then elim (disk.eval_symlinks (c ∷ cs)) [
        | err e ↦ none
        | ok real ↦ stat_at real (paths.stat real)
      ]
      else stat_at (c ∷ cs) (paths.stat (c ∷ cs))

  unfoldable pub file_info : Text → Text → ℕ → FileInfo
  file_info path name size = record { path = path; size = pos size; sha256 = []; file_name = name }

  -- The folder of a file in the record.
  unfoldable pub sorted_name : Text → Text
  unfolding has_suffix
  sorted_name name =
      if has_suffix name (codes ".bag")
      then paths.join (codes "bag") name
      else if has_suffix name (codes ".log")
      then paths.join (codes "log") name
      else if has_suffix name (codes ".mcap")
      then paths.join (codes "mcap") name
      else paths.join (codes "files") name

  unfoldable pub relative_name : Text → Text → Text
  relative_name base_dir real = elim (paths.rel base_dir real) [
    | none ↦ paths.base real
    | some name ↦ name
  ]

  add_real : Text → Option (Text × Info) → FileInfos → FileInfos
  unfolding relative_name file_info
  add_real base_dir none files = files
  add_real base_dir (some (real, info)) files =
      if info.is_dir
      then files
      else insert real (file_info real (relative_name base_dir real) info.size) files

  unfoldable pub directory_file : Text → Text → FileInfos → FileInfos × Option WalkError
  unfolding add_real get_real_file_info
  directory_file base_dir path files = (add_real base_dir (get_real_file_info path) files, none)

  unfoldable pub add_all : FileInfos → FileInfos → FileInfos
  add_all [] files = files
  add_all ((p, info) ∷ more) files = add_all more (insert p info files)

  -- The files of a directory, unless the walk failed.
  unfoldable pub add_walked : FileInfos → Outcome (ℕ × FileInfos) → Option FileInfos
  unfolding add_all
  add_walked files none = none
  add_walked files (some (visited, (n, found), none)) = some (add_all found files)
  add_walked files (some (visited, (n, found), some e)) = some files

  module _ (fuel : ℕ) where
    add_state : FileState → Option (Text × Info) → FileInfos → Option FileInfos
    unfolding add_walked directory_file file_info sorted_name
    add_state s none files = some files
    add_state s (some (real, info)) files =
        if s.is_dir
        then add_walked files
            (walk_file_paths disk walk_options fuel real (directory_file (disk.dir real)) [])
        else some (insert real (file_info real (sorted_name (paths.base real)) info.size) files)

    unfoldable pub compute_rule_file_infos : List FileState → FileInfos → Option FileInfos
    unfolding add_state get_real_file_info
    compute_rule_file_infos [] files = some files
    compute_rule_file_infos (s ∷ ss) files =
        elim (add_state s (get_real_file_info s.pathname) files) [
          | none ↦ none
          | some files' ↦ compute_rule_file_infos ss files'
        ]

module _ (disk : Disk) (paths : Paths) (targets : List Text) (bound fuel : ℕ)
    (finite : IsFinite disk targets bound)
    (enough : suc (length targets) * (bound + 2) ≤ fuel) where
  pub add_walked-returns :
      (files : FileInfos) (r : Outcome (ℕ × FileInfos))
      → is_some r ≡ true
      → is_some (add_walked disk paths files r) ≡ true
  unfolding add_walked
  add_walked-returns files none h = h
  add_walked-returns files (some (visited, (n, found), none)) h = refl
  add_walked-returns files (some (visited, (n, found), some e)) h = refl

  add_state-returns :
      (s : FileState) (o : Option (Text × Info)) (files : FileInfos)
      → is_some (add_state disk paths fuel s o files) ≡ true
  unfolding add_state walk_file_paths
  add_state-returns s none files = refl
  add_state-returns s (some (real, info)) files = elim (Bool-cases s.is_dir) [
    | inr e ↦ rw e refl
    | inl e ↦ rw e (
        add_walked-returns files
          (walk_file_paths disk walk_options fuel real (directory_file disk paths (disk.dir real))
            [])
          (sym_walk-returns disk walk_options
            (file_walk_fn disk walk_options (directory_file disk paths (disk.dir real))) targets
            bound finite real fuel (0, []) enough))
  ]

  -- On a finite disk the files of any states are told, within the depth that the walk needs.
  pub compute_rule_file_infos-returns :
      (ss : List FileState) (files : FileInfos)
      → is_some (compute_rule_file_infos disk paths fuel ss files) ≡ true
  unfolding compute_rule_file_infos
  compute_rule_file_infos-returns [] files = refl
  compute_rule_file_infos-returns (s ∷ ss) files =
      elim (Option-cases
        (add_state disk paths fuel s (get_real_file_info disk paths s.pathname) files)) [
          | inl e ↦
              let no : false ≡ true =
                sym (ap (λ (o : Option FileInfos). is_some o) e)
                ∙ add_state-returns s (get_real_file_info disk paths s.pathname) files in
              cc
          | inr (files', e) ↦
              rw (is_some, compute_rule_file_infos, e) (compute_rule_file_infos-returns ss files')
        ]
