-- ===== src/FileState/Update.antt =====
-- UpdateListenDirs and UpdateCollectDirs of
-- internal/mod/rule/file_state_handler/file_state_handler.go. The file system is a parameter: what
-- is readable, what os.Stat and os.ReadDir give, and the walk of a directory.
use co_scout.Prelude.{
  ℕ, Bool, true, false, not, ◌&&◌, ◌||◌, List, [], ◌∷◌, Option, none, some, if◌then◌else◌, Text,
  keys,
}
use co_scout.Prelude.Int.{ℤ}
use co_scout.FileState.{States, FileInfo, Handler, FileStateHandler, save_state}
use co_scout.FileState.Cleanup.{
  Stat, there, gone, stat_error, contains, difference, drop_files, update_deleted_file_state,
}
use co_scout.FileState.Process.{process_listen_file, process_collect_file}
use co_scout.FileState.Rollback.{
  Visit, passes_over, stops_walk, works, Walked, completed, stopped, failed, walk_directory,
}

-- An entry of a directory, with its path there, and its info where that is had.
pub record DirEntry : Type 0 where
  pub path : Text
  pub is_dir : Bool
  pub info : Option FileInfo

pub record FileSystem : Type 0 where
  pub readable : Text → Bool
  pub stat : Text → Stat
  pub read_dir : Text → Option (List DirEntry)
  pub walk : Text → List Text × Bool

-- DefaultModConfConfig of internal/config, as far as it is read here.
pub record Conf : Type 0 where
  pub listen_dirs : List Text
  pub collect_dirs : List Text
  pub recursively_walk_dirs : Bool
  pub skip_period_hours : ℕ

-- The set of the readable directories.
unfoldable pub readable_dirs : (Text → Bool) → List Text → List Text
unfolding contains
readable_dirs readable [] = []
readable_dirs readable (d ∷ ds) =
    let rest = readable_dirs readable ds in
    if readable d && not (contains rest d) then d ∷ rest else rest

any_matches : (Text → Text → Option Bool) → List Text → Text → Bool
any_matches path_match [] filename = false
any_matches path_match (q ∷ qs) filename = elim (path_match q filename) [
  | none ↦ any_matches path_match qs filename
  | some matched ↦ matched || any_matches path_match qs filename
]

-- A pattern that is malformed matches nothing.
unfoldable pub matches_whitelist : (Text → Text → Option Bool) → List Text → Text → Bool
unfolding any_matches
matches_whitelist path_match [] filename = true
matches_whitelist path_match (pattern ∷ whitelist) filename =
    any_matches path_match (pattern ∷ whitelist) filename

module _ (abs : Text → Option Text) (fs : FileSystem) where
  -- What is the same in both updates once the directories are done: the cleaning and the saving.
  unfoldable pub finish_update : Bool → FileStateHandler → FileStateHandler × Bool
  finish_update writes f =
      let (m, done) = update_deleted_file_state abs fs.stat f.state in
      if done then save_state writes (record f { state = m }) else (record f { state = m }, false)

  unfoldable pub is_directory : Stat → Bool
  is_directory (there info) = info.is_dir
  is_directory gone = false
  is_directory stat_error = false

  -- The entries of a directory that is not walked; the visitor is told the info of the entry.
  unfoldable pub each_entry : (Text → Option FileInfo → Visit) → List DirEntry → States → States
  each_entry visit [] m = m
  each_entry visit (e ∷ es) m =
      let v = visit e.path e.info in
      each_entry visit es
        (if e.is_dir then m else (elim v [ passes_over ↦ m | stops_walk ↦ m | works f ↦ f m ]))

  unfoldable pub list_directory :
      (Text → Option FileInfo → Visit) → Option (List DirEntry) → States → States × Walked
  unfolding each_entry
  list_directory visit none m = (m, failed)
  list_directory visit (some es) m = (each_entry visit es m, completed)

  unfoldable pub info_of : Stat → Option FileInfo
  info_of (there info) = some info
  info_of gone = none
  info_of stat_error = none

  -- One directory: skipped if it is none, walked with its files' infos by os.Stat, or listed.
  unfoldable pub update_directory :
      Bool → (Text → Option FileInfo → Visit) → Text → States → States × Walked
  unfolding is_directory info_of list_directory
  update_directory recursive visit dir m =
      if not (is_directory (fs.stat dir))
      then (m, failed)
      else if recursive
      then walk_directory abs (λ p. visit p (info_of (fs.stat p))) (fs.walk dir) m
      else list_directory visit (fs.read_dir dir) m

  -- The directories in their order, up to one whose walk is stopped; whether one was.
  unfoldable pub update_directories :
      Bool → (Text → Option FileInfo → Visit) → List Text → States → States × Bool
  update_directories recursive visit [] m = (m, false)
  update_directories recursive visit (dir ∷ dirs) m =
      let (m', walked) = update_directory recursive visit dir m in
      let rest = update_directories recursive visit dirs m' in
      elim walked [ completed ↦ rest | stopped ↦ (m', true) | failed ↦ rest ]

  module _ (handlers : List Handler) where
    -- The callback of the listened directories.
    unfoldable pub listens : ℤ × ℕ → ℕ → Text → Option FileInfo → Visit
    listens now hours p info = if not (fs.readable p) then passes_over else elim info [
      | none ↦ passes_over
      | some i ↦ works (λ m. process_listen_file abs handlers m p i now hours)
    ]

    unfoldable pub update_listen_dirs :
        Bool → ℤ × ℕ → Conf → FileStateHandler → FileStateHandler × Bool
    unfolding readable_dirs finish_update listens
    update_listen_dirs writes now conf f =
        let new = readable_dirs fs.readable conf.listen_dirs in
        let (m, dropped) = drop_files abs (keys f.state) (difference f.listen_dirs new) f.state in
        let m' =
          (update_directories conf.recursively_walk_dirs (listens now conf.skip_period_hours) new
            m).0 in
        if dropped
        then finish_update writes (record f { state = m'; listen_dirs = new })
        else (record f { state = m }, false)

    module _ (birth_times : Text → Option (ℤ × ℤ)) (path_match : Text → Text → Option Bool) where
      -- The callback of the collected directories: in a walk, a file that is not readable ends it.
      unfoldable pub collects : Bool → List Text → Text → Option FileInfo → Visit
      unfolding matches_whitelist
      collects recursive whitelist p info =
          if not (matches_whitelist path_match whitelist p)
          then passes_over
          else if not (fs.readable p)
          then (if recursive then stops_walk else passes_over)
          else elim info [
            | none ↦ passes_over
            | some i ↦ works (λ m. process_collect_file abs handlers birth_times m p i)
          ]

      -- A listed entry is met under its absolute path.
      unfoldable pub collects_at : Bool → List Text → Text → Option FileInfo → Visit
      collects_at recursive whitelist p info =
          if recursive
          then collects recursive whitelist p info
          else elim (abs p) [ none ↦ passes_over | some a ↦ collects recursive whitelist a info ]

      unfoldable pub update_collect_dirs :
          Bool → List Text → Conf → FileStateHandler → FileStateHandler × Bool
      unfolding readable_dirs finish_update collects_at
      update_collect_dirs writes whitelist conf f =
          let new = readable_dirs fs.readable conf.collect_dirs in
          let (m, dropped) =
            drop_files abs (keys f.state) (difference f.collect_dirs new) f.state in
          let (m', ended) =
            update_directories conf.recursively_walk_dirs
              (collects_at conf.recursively_walk_dirs whitelist) new m in
          if not dropped
          then (record f { state = m }, false)
          else if ended
          then (record f { state = m' }, true)
          else finish_update writes (record f { state = m'; collect_dirs = new })
