-- ===== src/UploadFiles/Wanted.antt =====
-- Which files ComputeUploadFiles of pkg/upload/file.go tells.
use mathlib.Core.List.{Mem, mem-cons_self, mem-cons_of_mem}
use co_scout.Prelude.{
  ◌≡◌, ◌⊎◌, inl, inr, refl, true, false, not, ◌||◌, ℕ, List, [], ◌∷◌, Option, none, some, Text, All,
  Bool-cases, Option-cases, arith, subst,
}
use co_scout.Prelude.Int.{ℤ, pos}
use co_scout.FileState as State
use co_scout.FileState.Update.{DirEntry}
use co_scout.RecordCache.{FileInfo}
use co_scout.SymWalk.{Info}
use co_scout.Collecting.RuleFiles.{FileInfos, get_real_file_info}
use co_scout.UploadFiles.Gathered.{AllFound, insert-All, walked-All}
use co_scout.UploadFiles.{
  Site, Task, Found, Target, denied, missing, real, target, real_target, deny, put, whitelisted,
  overlaps, start_of, put_timed, process_file, visit_target, visit_file, entry_file, entry_files,
  read_folder, scan_target, scan_folders,
}

module _ (site : Site) (task : Task) where
  -- A modification time that was had for a path: from os.Stat, or from a directory's entry.
  abbrev pub HasModTime : Text → ℤ → Type 0
  HasModTime path modified =
      (modified ≡ site.mod_time path)
      ⊎ ((root : Text) × (es : List DirEntry) × (e : DirEntry) × (info : State.FileInfo)
          × (site.read_dir root ≡ some es)
          × Mem e es
          × (e.path ≡ path)
          × (e.info ≡ some info)
          × (info.mod_unix ≡ modified))

  -- The file lay in the window, from its birth, if that is known, to its modification.
  abbrev pub IsTimed : Text → Type 0
  IsTimed path =
      (modified : ℤ) × (birth : Option ℤ) × HasModTime path modified
      × (site.birth_time path ≡ some birth)
      × (overlaps site task (start_of site task modified birth) modified ≡ true)

  -- The file is what a scanned folder turned out to be.
  abbrev pub IsScanned : Text → Type 0
  IsScanned path =
      (folder : Text) × (info : Info) × (target site folder ≡ real path info)
      × (info.is_dir ≡ false)

  abbrev pub IsWanted : Text × FileInfo → Type 0
  IsWanted (path, info) =
      (info.path ≡ path)
      × (site.readable path ≡ true)
      × (whitelisted site task path ≡ true)
      × (IsTimed path ⊎ IsScanned path)

  abbrev pub AllWanted : FileInfos → Type 0
  AllWanted = All IsWanted

  put_timed-All :
      (root path : Text) (size modified : ℤ) (birth : Option (Option ℤ)) (files : FileInfos)
      → site.birth_time path ≡ birth
      → site.readable path ≡ true
      → whitelisted site task path ≡ true
      → HasModTime path modified
      → AllWanted files
      → AllWanted (put_timed site task root path size modified birth files)
  unfolding put_timed put
  put_timed-All root path size modified none files e r w m h = h
  put_timed-All root path size modified (some birth) files e r w m h =
      elim (Bool-cases (overlaps site task (start_of site task modified birth) modified)) [
        | inr bad ↦ rw bad h
        | inl good ↦ rw good (
            insert-All site task IsWanted path _ files
              (refl, r, w, inl (modified, birth, m, e, good)) h)
      ]

  process_file-All :
      (root path : Text) (size modified : ℤ) (files : FileInfos)
      → site.readable path ≡ true
      → HasModTime path modified
      → AllWanted files
      → AllWanted (process_file site task root path size modified files)
  unfolding process_file
  process_file-All root path size modified files r m h =
      elim (Bool-cases (whitelisted site task path)) [
        | inr bad ↦ rw bad h
        | inl good ↦
            rw good
              (put_timed-All root path size modified (site.birth_time path) files refl r good m h)
      ]

  real_target-readable :
      (o : Option (Text × Info)) (path : Text) (info : Info)
      → real_target site o ≡ real path info
      → site.readable path ≡ true
  unfolding real_target
  real_target-readable none path info e = cc
  real_target-readable (some (p, i)) path info e = elim (Bool-cases (site.readable p)) [
    | inl good ↦ ground arith
    | inr bad ↦ ground arith
  ]

  -- A path that is taken has been checked.
  pub target-readable :
      (p path : Text) (info : Info) → target site p ≡ real path info → site.readable path ≡ true
  unfolding target
  target-readable p path info e = elim (Bool-cases (site.readable p)) [
    | inl good ↦
        real_target-readable (get_real_file_info site.disk site.paths p) path info (ground arith)
    | inr bad ↦ ground arith
  ]

  visit_target-All :
      (root p : Text) (t : Target) (files : FileInfos)
      → target site p ≡ t
      → AllWanted files
      → AllWanted (visit_target site task root t files)
  unfolding visit_target
  visit_target-All root p (denied q) files e h = h
  visit_target-All root p missing files e h = h
  visit_target-All root p (real path info) files e h = elim (Bool-cases info.is_dir) [
    | inl dir ↦ rw dir h
    | inr file ↦ rw file (
        process_file-All root path (pos info.size) (site.mod_time path) files
          (target-readable p path info e) (inl refl) h)
  ]

  entry_file-All :
      (root : Text) (all : List DirEntry) (e : DirEntry) (o : Option State.FileInfo)
      (files : FileInfos)
      → site.read_dir root ≡ some all
      → Mem e all
      → e.info ≡ o
      → site.readable e.path ≡ true
      → AllWanted files
      → AllWanted (entry_file site task root e o files)
  unfolding entry_file
  entry_file-All root all e none files read m eq r h = h
  entry_file-All root all e (some info) files read m eq r h =
      process_file-All root e.path info.size info.mod_unix files r
        (inr (root, all, e, info, read, m, refl, eq, refl)) h

  entry_files-All :
      (root : Text) (all es : List DirEntry) (files : FileInfos)
      → site.read_dir root ≡ some all
      → ((e : DirEntry) → Mem e es → Mem e all)
      → AllWanted files
      → AllWanted (entry_files site task root es files)
  unfolding entry_files
  entry_files-All root all [] files read among h = h
  entry_files-All root all (e ∷ es) files read among h =
      elim (Bool-cases (e.is_dir || not (site.readable e.path))) [
        | inl skips ↦
            rw skips
              (entry_files-All root all es files read (λ d m. among d (mem-cons_of_mem e m)) h)
        | inr takes ↦ rw takes (
            entry_files-All root all es (entry_file site task root e e.info files) read
              (λ d m. among d (mem-cons_of_mem e m))
              (entry_file-All root all e e.info files read (among e mem-cons_self) refl
                (ground arith) h))
      ]

  read_folder-All :
      (root : Text) (o : Option (List DirEntry)) (files : FileInfos)
      → site.read_dir root ≡ o
      → AllWanted files
      → AllWanted (read_folder site task root o files)
  unfolding read_folder
  read_folder-All root none files e h = h
  read_folder-All root (some es) files e h = entry_files-All root es es files e (λ d m. m) h

  scan_target-All :
      (fuel : ℕ) (folder : Text) (t : Target) (found : Found)
      → target site folder ≡ t
      → AllWanted found.files
      → AllFound site task IsWanted (scan_target site task fuel t found)
  unfolding scan_target deny put visit_file
  scan_target-All fuel folder (denied q) found e h = h
  scan_target-All fuel folder missing found e h = h
  scan_target-All fuel folder (real path info) found e h = elim (Bool-cases info.is_dir) [
    | inr file ↦ elim (Bool-cases (whitelisted site task path)) [
      | inr bad ↦ rw (scan_target, file, bad) h
      | inl good ↦
          rw (scan_target, file, good)
            (insert-All site task IsWanted path _ found.files
              (refl, target-readable folder path info e, good, inr (folder, info, e, file)) h)
    ]
    | inl dir ↦ elim (Bool-cases task.recursively_walk_dirs) [
      | inl walks ↦
          rw (scan_target, dir, walks)
            (walked-All site task IsWanted (visit_file site task path)
              (λ p files. visit_target-All path p (target site p) files refl) fuel path found h)
      | inr reads ↦
          rw (scan_target, dir, reads)
            (read_folder-All path (site.read_dir path) found.files refl h)
    ]
  ]

  pub scan_folders-All :
      (fuel : ℕ) (folders : List Text) (found : Found)
      → AllWanted found.files
      → AllFound site task IsWanted (scan_folders site task fuel folders found)
  unfolding scan_folders
  scan_folders-All fuel [] found h = h
  scan_folders-All fuel (folder ∷ folders) found h =
      elim (Option-cases (scan_target site task fuel (target site folder) found)) [
        | inl e ↦ rw (scan_folders, e) tt
        | inr (found', e) ↦
            let step = scan_target-All fuel folder (target site folder) found refl h in
            rw (scan_folders, e)
              (scan_folders-All fuel folders found' (subst (AllFound site task IsWanted) e step))
      ]
