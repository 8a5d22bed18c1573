-- ===== src/UploadFiles/Gathered.antt =====
-- Adding files in ComputeUploadFiles of pkg/upload/file.go keeps what holds of every file.
use co_scout.Prelude.{
  ℕ, [], ◌∷◌, Option, none, some, Text, text_eq, insert, All, Bool-cases, inl, inr,
}
use co_scout.RecordCache.{FileInfo}
use co_scout.SymWalk.{Outcome, WalkError, walk_file_paths}
use co_scout.SymWalk.Invariant.{Holds, walk_file_paths-Holds}
use co_scout.Collecting.RuleFiles.{FileInfos, walk_options, add_walked, add_all}
use co_scout.UploadFiles.{Site, Task, Found, with_files}

module _ (site : Site) (task : Task) where
  module _ (P : Text × FileInfo → Type 0) where
    pub insert-All :
        (path : Text) (info : FileInfo) (files : FileInfos)
        → P (path, info)
        → All P files
        → All P (insert path info files)
    unfolding insert
    insert-All path info [] h hs = (h, tt)
    insert-All path info ((j, w) ∷ m) h hs = elim (Bool-cases (text_eq j path)) [
      | inl e ↦ rw e (h, hs.1)
      | inr e ↦ rw e (hs.0, insert-All path info m h hs.1)
    ]

    add_all-All :
        (more files : FileInfos)
        → All P more
        → All P files
        → All P (add_all site.disk site.paths more files)
    unfolding add_all
    add_all-All [] files hs h = h
    add_all-All ((p, info) ∷ more) files hs h =
        add_all-All more (insert p info files) hs.1 (insert-All p info files hs.0 h)

    abbrev AllOf : Option FileInfos → Type 0
    AllOf none = Unit {0}
    AllOf (some files) = All P files

    abbrev pub AllFound : Option Found → Type 0
    AllFound none = Unit {0}
    AllFound (some found) = All P found.files

    add_walked-All :
        (files : FileInfos) (r : Outcome (ℕ × FileInfos))
        → Holds (λ (s : ℕ × FileInfos). All P s.1) r
        → All P files
        → AllOf (add_walked site.disk site.paths files r)
    unfolding add_walked
    add_walked-All files none hs h = tt
    add_walked-All files (some (visited, (n, found), none)) hs h = add_all-All found files hs h
    add_walked-All files (some (visited, (n, found), some x)) hs h = h

    with_files-All :
        (found : Found) (o : Option FileInfos) → AllOf o → AllFound (with_files site task found o)
    unfolding with_files
    with_files-All found none h = tt
    with_files-All found (some files) h = h

    -- The files of a walk go to those that there are.
    pub walked-All :
        (user : Text → FileInfos → FileInfos × Option WalkError)
        → ((path : Text) (files : FileInfos) → All P files → All P (user path files).0)
        → (fuel : ℕ) (root : Text) (found : Found) → All P found.files
        → AllFound (
            with_files site task found (
              add_walked site.disk site.paths found.files
                (walk_file_paths site.disk walk_options fuel root user [])))
    walked-All user kept fuel root found h =
        let r = walk_file_paths site.disk walk_options fuel root user [] in
        with_files-All found (add_walked site.disk site.paths found.files r) (
          add_walked-All found.files r
            (walk_file_paths-Holds (λ files. All P files) site.disk walk_options user kept fuel root
              [] tt)
            h)
