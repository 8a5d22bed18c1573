-- ===== src/SymWalk.antt =====
-- pkg/utils/symwalk.go: the walk over a file tree that follows symbolic links. What the operating
-- system answers and the functions of path/filepath are parameters; an answer does not change
-- during a walk. A file that is not a directory is one of the sizes that `os.FileInfo` gives.
pub mod Finite
pub mod Termination
pub mod Tree
pub mod Complete
pub mod Invariant
mod Tests
use co_scout.Prelude.{
  ℕ, zero, suc, ◌+◌, Bool, true, false, not, ◌&&◌, ◌||◌, List, [], ◌∷◌, ◌++◌, Option, none, some,
  if◌then◌else◌, Text, text_eq, ltb, leb, ◌==◌,
}

-- `too_many_links` is ELOOP, by its number or by its text; `denied` is what isPermissionError
-- recognises; `skip_dir` is filepath.SkipDir.
pub data WalkError : Type 0 where
  skip_dir denied too_many_links : WalkError
  other : ℕ → WalkError

pub data Answer {ℓ} (A : Type ℓ) : Type ℓ where
  ok : A → Answer A
  err : WalkError → Answer A

-- `os.FileInfo`.
pub record Info : Type 0 where
  pub is_dir : Bool
  pub is_symlink : Bool
  pub size : ℕ

-- `os.DirEntry`: `link` is the symbolic link bit of its type.
pub record Entry : Type 0 where
  pub name : Text
  pub link : Bool
  pub info : Answer Info

pub record Disk : Type 0 where
  pub lstat : Text → Answer Info
  pub readlink : Text → Answer Text
  pub eval_symlinks : Text → Answer Text
  pub read_dir : Text → Answer (List Entry)
  pub abs : Text → Answer Text
  pub is_abs : Text → Bool
  pub clean : Text → Text
  pub dir : Text → Text
  pub join : Text → Text → Text
  pub sort : List Entry → List Entry

pub record SymWalkOptions : Type 0 where
  pub follow_symlinks : Bool
  pub skip_permission_errors : Bool
  pub max_files : ℕ
  pub skip_empty_files : Bool

abbrev pub default_sym_walk_options : SymWalkOptions
default_sym_walk_options = record {
  follow_symlinks = true;
  skip_permission_errors = true;
  max_files = 10000;
  skip_empty_files = true;
}

unfoldable pub is_permission_error : WalkError → Bool
is_permission_error denied = true
is_permission_error skip_dir = false
is_permission_error too_many_links = false
is_permission_error (other n) = false

unfoldable pub is_skip_dir : WalkError → Bool
is_skip_dir skip_dir = true
is_skip_dir denied = false
is_skip_dir too_many_links = false
is_skip_dir (other n) = false

unfoldable pub is_too_many_links : WalkError → Bool
is_too_many_links too_many_links = true
is_too_many_links skip_dir = false
is_too_many_links denied = false
is_too_many_links (other n) = false

-- What a `filepath.WalkFunc` is called with: an info, or an error with the info that there is.
pub data Seen : Type 0 where
  entry : Info → Seen
  failed : Option Info → WalkError → Seen

-- The keys of the map `visited`.
unfoldable pub is_visited : Text → List Text → Bool
is_visited p [] = false
is_visited p (q ∷ qs) = text_eq q p || is_visited p qs

-- The callback's state, the visited paths and the error; nothing if the fuel ran out.
abbrev pub Outcome : Type 0 → Type 0
Outcome W = Option (List Text × W × Option WalkError)

abbrev pub WalkFunc : Type 0 → Type 0
WalkFunc W = Text → Seen → W → W × Option WalkError

abbrev pub Walk : Type 0 → Type 0
Walk W = Text → Info → List Text → W → Outcome W

-- What follows a call unless it returned an error.
unfoldable pub and_then : {W : Type 0} → Outcome W → (List Text → W → Outcome W) → Outcome W
and_then none k = none
and_then (some (v, w, none)) k = k v w
and_then (some (v, w, some e)) k = some (v, w, some e)

-- `err != nil && !errors.Is(err, filepath.SkipDir)`, or the error is dropped.
unfoldable pub drop_skip_dir : {W : Type 0} → Outcome W → Outcome W
drop_skip_dir none = none
drop_skip_dir (some (v, w, none)) = some (v, w, none)
drop_skip_dir (some (v, w, some e)) = some (v, w, if is_skip_dir e then none else some e)

module _ (disk : Disk) where
  unfoldable pub abs_link_target : Text → Text → Text
  abs_link_target abs_path target =
      if disk.is_abs target then target else disk.join (disk.dir abs_path) target

  -- The info of an entry: a link is looked at again.
  unfoldable pub entry_info : Entry → Text → Answer Info
  entry_info e filename = elim e.info [
    | err x ↦ err x
    | ok i ↦ if e.link then disk.lstat filename else ok i
  ]

-- The info for the callback is what a second Lstat gives.
unfoldable pub info_of : Answer Info → Option Info
info_of (ok i) = some i
info_of (err e) = none

-- Only a file that is neither a directory nor a link hands `SkipDir` on.
unfoldable pub after_entry : {W : Type 0} → Info → Outcome W → Outcome W
unfolding drop_skip_dir
after_entry i r = if not i.is_dir && not i.is_symlink then r else drop_skip_dir r

module _ {W : Type 0} (disk : Disk) (options : SymWalkOptions) (walk_fn : WalkFunc W) where
  unfoldable pub report : Text → Option Info → WalkError → List Text → W → Outcome W
  report path info e visited w = let r = walk_fn path (failed info e) w in some (visited, r.0, r.1)

  unfoldable pub skip_or_report : Text → Option Info → WalkError → List Text → W → Outcome W
  unfolding report
  skip_or_report path info e visited w =
      if options.skip_permission_errors && is_permission_error e
      then some (visited, w, none)
      else report path info e visited w

  -- The end of handleSymlink, where the real path is new.
  unfoldable pub walk_resolved : Walk W → Text → Text → List Text → W → Outcome W
  unfolding skip_or_report drop_skip_dir
  walk_resolved walk path resolved visited w = elim (disk.lstat resolved) [
    | err e ↦ skip_or_report path none e visited w
    | ok info ↦ drop_skip_dir (walk path info visited w)
  ]

  unfoldable pub enter_link : Walk W → Text → Info → Text → List Text → W → Outcome W
  unfolding report walk_resolved is_visited
  enter_link walk path info resolved visited w = elim (disk.abs resolved) [
    | err e ↦ report path (some info) e visited w
    | ok real ↦ elim (is_visited real visited) [
      | true ↦ some (visited, w, none)
      | false ↦ walk_resolved walk path resolved (real ∷ visited) w
    ]
  ]

  unfoldable pub resolve_link : Walk W → Text → Info → List Text → W → Outcome W
  unfolding skip_or_report enter_link
  resolve_link walk path info visited w = elim (disk.eval_symlinks path) [
    | err e ↦
        if is_too_many_links e
        then some (visited, w, none)
        else skip_or_report path (some info) e visited w
    | ok resolved ↦ enter_link walk path info resolved visited w
  ]

  unfoldable pub handle_symlink : Walk W → Text → Info → List Text → W → Outcome W
  unfolding skip_or_report report resolve_link abs_link_target
  handle_symlink walk path info visited w = elim (disk.readlink path) [
    | err e ↦ skip_or_report path (some info) e visited w
    | ok target ↦ elim (disk.abs path) [
      | err e ↦ report path (some info) e visited w
      | ok abs_path ↦
          elim (text_eq (disk.clean abs_path) (disk.clean (abs_link_target disk abs_path target))) [
            | true ↦ some (visited, w, none)
            | false ↦ resolve_link walk path info visited w
          ]
    ]
  ]

  unfoldable pub process_entry : Walk W → Entry → Text → List Text → W → Outcome W
  unfolding skip_or_report entry_info drop_skip_dir after_entry
  process_entry walk e filename visited w = elim (entry_info disk e filename) [
    | err x ↦ drop_skip_dir (skip_or_report filename none x visited w)
    | ok i ↦ after_entry i (walk filename i visited w)
  ]

  unfoldable pub walk_entries : Walk W → Text → List Entry → List Text → W → Outcome W
  unfolding process_entry and_then
  walk_entries walk path [] visited w = some (visited, w, none)
  walk_entries walk path (e ∷ es) visited w =
      and_then (process_entry walk e (disk.join path e.name) visited w) (walk_entries walk path es)

  unfoldable pub walk_directory : Walk W → Text → List Text → W → Outcome W
  unfolding skip_or_report walk_entries info_of
  walk_directory walk path visited w = elim (disk.read_dir path) [
    | err e ↦ skip_or_report path (info_of (disk.lstat path)) e visited w
    | ok entries ↦ walk_entries walk path (disk.sort entries) visited w
  ]

  -- The callback has returned; a directory is entered.
  unfoldable pub descend : Walk W → Text → Info → List Text → W × Option WalkError → Outcome W
  unfolding walk_directory
  descend walk path info visited (w, some e) = some (visited, w, some e)
  descend walk path info visited (w, none) = elim info.is_dir [
    | true ↦ walk_directory walk path visited w
    | false ↦ some (visited, w, none)
  ]

  unfoldable pub symwalk : ℕ → Walk W
  unfolding handle_symlink descend
  symwalk zero path info visited w = none
  symwalk (suc fuel) path info visited w = elim (info.is_symlink && options.follow_symlinks) [
    | true ↦ handle_symlink (symwalk fuel) path info visited w
    | false ↦ elim (options.skip_empty_files && (not info.is_dir && info.size == 0)) [
      | true ↦ some (visited, w, none)
      | false ↦ descend (symwalk fuel) path info visited (walk_fn path (entry info) w)
    ]
  ]

  unfoldable pub sym_walk : ℕ → Text → W → Outcome W
  unfolding symwalk skip_or_report drop_skip_dir
  sym_walk fuel root w = elim (disk.lstat root) [
    | err e ↦ drop_skip_dir (skip_or_report root none e [] w)
    | ok info ↦ drop_skip_dir (symwalk fuel root info [] w)
  ]

module _ {U : Type 0} (disk : Disk) (options : SymWalkOptions) where
  unfoldable pub limited :
      Bool → (Text → U → U × Option WalkError) → Answer Text → ℕ × U → (ℕ × U) × Option WalkError
  limited true user a s = (s, some skip_dir)
  limited false user (err e) s = (s, some e)
  limited false user (ok path) (count, u) = let r = user path u in ((count + 1, r.0), r.1)

  -- The callback of WalkFilePaths, with its count of files.
  unfoldable pub file_walk_fn : (Text → U → U × Option WalkError) → WalkFunc (ℕ × U)
  unfolding limited
  file_walk_fn user path (failed info e) s = (s, some e)
  file_walk_fn user path (entry info) s = elim info.is_dir [
    | true ↦ (s, none)
    | false ↦ limited (ltb 0 options.max_files && leb options.max_files s.0) user (disk.abs path) s
  ]

  unfoldable pub walk_file_paths :
      ℕ → Text → (Text → U → U × Option WalkError) → U → Outcome (ℕ × U)
  unfolding sym_walk file_walk_fn
  walk_file_paths fuel root user u = sym_walk disk options (file_walk_fn user) fuel root (0, u)

-- The paths in the order in which the walk meets them, or the error.
unfoldable pub listed : Outcome (ℕ × List Text) → Option (Answer (List Text))
listed none = none
listed (some (v, (n, paths), none)) = some (ok paths)
listed (some (v, (n, paths), some e)) = some (err e)

unfoldable pub append_path : Text → List Text → List Text × Option WalkError
append_path path paths = (paths ++ path ∷ [], none)

unfoldable pub get_all_file_paths : Disk → SymWalkOptions → ℕ → Text → Option (Answer (List Text))
unfolding walk_file_paths listed append_path
get_all_file_paths disk options fuel root =
    listed (walk_file_paths disk options fuel root append_path [])
