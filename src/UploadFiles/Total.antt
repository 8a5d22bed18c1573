-- ===== src/UploadFiles/Total.antt =====
-- ComputeUploadFiles of pkg/upload/file.go ends on every finite disk, and what it tells then.
use co_scout.Prelude.{
  ℕ, ◌≡◌, refl, suc, ◌+◌, ◌*◌, ◌≤◌, true, List, [], ◌∷◌, Option, none, some, is_some, Text, All,
  length, ◌⊎◌, Bool-cases, Option-cases, inl, inr, subst, arith, sym,
}
use co_scout.SymWalk.{WalkError, walk_file_paths, file_walk_fn}
use co_scout.SymWalk.Finite.{IsFinite}
use co_scout.SymWalk.Termination.{sym_walk-returns}
use co_scout.TimeWindow.{Time, TimeWindowError, validate_time_window_at}
use co_scout.Collecting.RuleFiles.{FileInfos, walk_options, add_walked, add_walked-returns}
use co_scout.UploadFiles.{
  Site, Task, Found, Target, denied, missing, real, target, with_files, visit_file,
  visit_additional, scan_target, scan_folders, add_target, add_additional, refused, scan_all,
  compute_upload_files, nothing_found, whitelisted,
}
use co_scout.UploadFiles.Gathered.{AllFound}
use co_scout.UploadFiles.Told.{IsTold, scan_all-All}

result_of : {A : Type 0} (o : Option A) → is_some o ≡ true → (a : A) × (o ≡ some a)
result_of none h = cc
result_of (some a) h = (a, refl)

module _ (site : Site) (task : Task) (targets : List Text) (bound fuel : ℕ)
    (finite : IsFinite site.disk targets bound)
    (enough : suc (length targets) * (bound + 2) ≤ fuel) where
  with_files-returns :
      (found : Found) (o : Option FileInfos)
      → is_some o ≡ true
      → is_some (with_files site task found o) ≡ true
  unfolding with_files
  with_files-returns found none h = h
  with_files-returns found (some files) h = refl

  walked-returns :
      (user : Text → FileInfos → FileInfos × Option WalkError) (root : Text) (found : Found)
      → is_some (
          with_files site task found (
            add_walked site.disk site.paths found.files
              (walk_file_paths site.disk walk_options fuel root user [])))
        ≡ true
  unfolding walk_file_paths
  walked-returns user root found =
      let r = walk_file_paths site.disk walk_options fuel root user [] in
      with_files-returns found (add_walked site.disk site.paths found.files r) (
        add_walked-returns site.disk site.paths targets bound fuel finite enough found.files r (
          sym_walk-returns site.disk walk_options (file_walk_fn site.disk walk_options user) targets
            bound finite root fuel (0, []) enough))

  scan_target-returns :
      (t : Target) (found : Found) → is_some (scan_target site task fuel t found) ≡ true
  unfolding scan_target
  scan_target-returns (denied p) found = refl
  scan_target-returns missing found = refl
  scan_target-returns (real path info) found = elim (Bool-cases info.is_dir) [
    | inr file ↦ elim (Bool-cases (whitelisted site task path)) [
      | inl good ↦ rw (is_some, scan_target, file, good) refl
      | inr bad ↦ rw (is_some, scan_target, file, bad) refl
    ]
    | inl dir ↦ elim (Bool-cases task.recursively_walk_dirs) [
      | inl walks ↦
          rw (is_some, scan_target, dir, walks)
            (walked-returns (visit_file site task path) path found)
      | inr reads ↦ rw (is_some, scan_target, dir, reads) refl
    ]
  ]

  scan_folders-returns :
      (folders : List Text) (found : Found)
      → is_some (scan_folders site task fuel folders found) ≡ true
  unfolding scan_folders
  scan_folders-returns [] found = refl
  scan_folders-returns (folder ∷ folders) found =
      let (found', e) =
        result_of (scan_target site task fuel (target site folder) found)
          (scan_target-returns (target site folder) found) in
      rw (is_some, scan_folders, e) (scan_folders-returns folders found')

  add_target-returns :
      (t : Target) (found : Found) → is_some (add_target site task fuel t found) ≡ true
  unfolding add_target
  add_target-returns (denied p) found = refl
  add_target-returns missing found = refl
  add_target-returns (real path info) found = elim (Bool-cases info.is_dir) [
    | inr file ↦ rw (is_some, add_target, file) refl
    | inl dir ↦
        rw (is_some, add_target, dir)
          (walked-returns (visit_additional site task (site.disk.dir (site.disk.clean path))) path
            found)
  ]

  add_additional-returns :
      (files : List Text) (found : Found)
      → is_some (add_additional site task fuel files found) ≡ true
  unfolding add_additional
  add_additional-returns [] found = refl
  add_additional-returns (file ∷ files) found =
      let (found', e) =
        result_of (add_target site task fuel (target site file) found)
          (add_target-returns (target site file) found) in
      rw (is_some, add_additional, e) (add_additional-returns files found')

  scan_all-returns : is_some (scan_all site task fuel) ≡ true
  unfolding scan_all
  scan_all-returns =
      let (found, e) =
        result_of (scan_folders site task fuel task.scan_folders nothing_found)
          (scan_folders-returns task.scan_folders nothing_found) in
      rw (is_some, scan_all, e) (add_additional-returns task.additional_files found)

  refused-files : (e : TimeWindowError) → (refused site task e).0.files ≡ []
  unfolding refused
  refused-files e = ground arith

  -- On a finite disk, with the fuel that the walks need, a result is told. Every file in it goes by
  -- its own path, can be read, and either matches the whitelist and lay in the window of the task,
  -- or matches the whitelist and is what a folder to scan turned out to be, or was found for an
  -- additional file and is named for that; none is told unless the window is accepted.
  pub compute_upload_files-IsTold :
      (now : Time)
      → (found : Found) × (e : Option TimeWindowError) × (compute_upload_files site task fuel now
          ≡ some (found, e))
        × All (IsTold site task) found.files
        × ((validate_time_window_at task.start_time task.end_time now ≡ none) ⊎ (found.files ≡ []))
  unfolding compute_upload_files
  compute_upload_files-IsTold now =
      elim (Option-cases (validate_time_window_at task.start_time task.end_time now)) [
        | inr (e, bad) ↦
            let r = refused site task e in
            (
              r.0,
              r.1,
              rw (compute_upload_files, bad) refl,
              subst (All (IsTold site task)) (sym (refused-files e)) tt,
              inr (refused-files e),
            )
        | inl good ↦
            let (found, e) = result_of (scan_all site task fuel) scan_all-returns in
            (
              found,
              none,
              rw (compute_upload_files, good, e) refl,
              subst (AllFound site task (IsTold site task)) e (scan_all-All site task fuel),
              inl good,
            )
      ]
