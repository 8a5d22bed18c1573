-- ===== src/UploadFiles/Told.antt =====
-- What ComputeUploadFiles of pkg/upload/file.go tells with the additional files, for every task and
-- window, and that it comes to an end.
use mathlib.Core.List.{Mem, mem-cons_self, mem-cons_of_mem}
use co_scout.Prelude.{
  ◌≡◌, ◌⊎◌, inl, inr, refl, true, false, ℕ, List, [], ◌∷◌, Text, All, Bool-cases, Option-cases,
  subst,
}
use co_scout.RecordCache.{FileInfo}
use co_scout.SymWalk.{Info}
use co_scout.SymWalk.Finite.{All-implies}
use co_scout.Collecting.RuleFiles.{FileInfos, relative_name}
use co_scout.UploadFiles.{
  Site, Task, Found, Target, denied, missing, real, target, deny, put, scan_folders,
  additional_target, visit_additional, add_target, add_additional, scan_all, nothing_found,
}
use co_scout.UploadFiles.Gathered.{AllFound, insert-All, walked-All}
use co_scout.UploadFiles.Wanted.{IsWanted, target-readable, scan_folders-All}

module _ (site : Site) (task : Task) where
  -- How an additional file that is the path `root`, or has it, is named.
  abbrev pub IsNamed : Text → Info → Text × FileInfo → Type 0
  IsNamed root i (path, info) =
      ((i.is_dir ≡ false) × (path ≡ root) × (info.file_name ≡ site.paths.base path))
      ⊎ ((i.is_dir ≡ true)
          × (info.file_name
              ≡ relative_name site.disk site.paths (site.disk.dir (site.disk.clean root)) path))

  abbrev pub IsAdditional : Text × FileInfo → Type 0
  IsAdditional (path, info) =
      (info.path ≡ path)
      × (site.readable path ≡ true)
      × ((file : Text) × (root : Text) × (i : Info) × Mem file task.additional_files
          × (target site file ≡ real root i)
          × IsNamed root i (path, info))

  abbrev pub IsTold : Text × FileInfo → Type 0
  IsTold x = IsWanted site task x ⊎ IsAdditional x

  additional_target-All :
      (file root : Text) (i : Info) (p : Text) (t : Target) (files : FileInfos)
      → Mem file task.additional_files
      → target site file ≡ real root i
      → i.is_dir ≡ true
      → target site p ≡ t
      → All IsTold files
      → All IsTold (additional_target site task (site.disk.dir (site.disk.clean root)) t files)
  unfolding additional_target put
  additional_target-All file root i p (denied q) files m at dir e h = h
  additional_target-All file root i p missing files m at dir e h = h
  additional_target-All file root i p (real path info) files m at dir e h =
      insert-All site task IsTold path _ files
        (inr
          (refl, target-readable site task p path info e, (file, root, i, m, at, inr (dir, refl))))
        h

  add_target-All :
      (fuel : ℕ) (file : Text) (t : Target) (found : Found)
      → Mem file task.additional_files
      → target site file ≡ t
      → All IsTold found.files
      → AllFound site task IsTold (add_target site task fuel t found)
  unfolding add_target deny put visit_additional
  add_target-All fuel file (denied q) found m e h = h
  add_target-All fuel file missing found m e h = h
  add_target-All fuel file (real path info) found m e h = elim (Bool-cases info.is_dir) [
    | inr plain ↦
        rw (add_target, plain)
          (insert-All site task IsTold path _ found.files
            (inr (
              refl,
              target-readable site task file path info e,
              (file, path, info, m, e, inl (plain, refl, refl)),
            ))
            h)
    | inl dir ↦
        rw (add_target, dir)
          (walked-All site task IsTold
            (visit_additional site task (site.disk.dir (site.disk.clean path)))
            (λ p files. additional_target-All file path info p (target site p) files m e dir refl)
            fuel path found h)
  ]

  add_additional-All :
      (fuel : ℕ) (files : List Text) (found : Found)
      → ((file : Text) → Mem file files → Mem file task.additional_files)
      → All IsTold found.files
      → AllFound site task IsTold (add_additional site task fuel files found)
  unfolding add_additional
  add_additional-All fuel [] found among h = h
  add_additional-All fuel (file ∷ files) found among h =
      elim (Option-cases (add_target site task fuel (target site file) found)) [
        | inl e ↦ rw (add_additional, e) tt
        | inr (found', e) ↦
            let step =
              add_target-All fuel file (target site file) found (among file mem-cons_self) refl h in
            rw (add_additional, e)
              (add_additional-All fuel files found' (λ g m. among g (mem-cons_of_mem file m))
                (subst (AllFound site task IsTold) e step))
      ]

  pub scan_all-All : (fuel : ℕ) → AllFound site task IsTold (scan_all site task fuel)
  unfolding scan_all
  scan_all-All fuel =
      elim (Option-cases (scan_folders site task fuel task.scan_folders nothing_found)) [
        | inl e ↦ rw (scan_all, e) tt
        | inr (found, e) ↦
            let scanned =
              subst (AllFound site task (IsWanted site task)) e
                (scan_folders-All site task fuel task.scan_folders nothing_found tt) in
            rw (scan_all, e)
              (add_additional-All fuel task.additional_files found (λ file m. m)
                (All-implies (IsWanted site task) IsTold found.files (λ x w. inl w) scanned))
      ]
