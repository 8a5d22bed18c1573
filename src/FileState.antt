-- ===== src/FileState.antt =====
-- internal/mod/rule/file_state_handler/file_state_handler.go: what the rule module knows of each
-- file, by its absolute path. `Abs` of path/filepath is a parameter, and a file handler is its
-- interface of internal/mod/rule/file_handlers, whose answers may depend on the file.
pub mod Stages
pub mod Process
mod Keys
pub mod Keyed
pub mod Visits
pub mod Scanning
pub mod Listening
pub mod Rollback
pub mod Cleanup
pub mod Sending
pub mod Update
mod Outcome
mod Stopping
pub mod Files
mod Ready
mod Tests
use co_scout.Prelude.{
  ℕ, ◌*◌, Bool, true, false, not, ◌&&◌, ◌||◌, List, [], ◌∷◌, Option, none, some, is_some, ◌==◌, ltb,
  if◌then◌else◌, Text, lookup, insert, delete, map_values, keys,
}
use co_scout.Prelude.Int.{ℤ, pos, ◌-ℤ◌, ltb_ℤ, ◌==ℤ◌}

pub data ProcessState : Type 0 where
  unprocessed seen_once ready_to_process processed : ProcessState

-- The pathname is only set in the result of `Files`.
pub record FileState : Type 0 where
  pub size : ℤ
  pub start_time : ℤ
  pub end_time : ℤ
  pub modify_time : ℤ
  pub unsupported : Bool
  pub too_old : Bool
  pub is_collecting : Bool
  pub is_dir : Bool
  pub is_listening : Bool
  pub process_state : ProcessState
  pub pathname : Text

-- Go's `FileState{}`.
abbrev pub empty_state : FileState
empty_state = record {
  size = pos 0;
  start_time = pos 0;
  end_time = pos 0;
  modify_time = pos 0;
  unsupported = false;
  too_old = false;
  is_collecting = false;
  is_dir = false;
  is_listening = false;
  process_state = unprocessed;
  pathname = [];
}

abbrev pub States : Type 0
States = List (Text × FileState)

-- What os.Stat tells of a file, its time in seconds and nanoseconds.
pub record FileInfo : Type 0 where
  pub size : ℤ
  pub mod_unix : ℤ
  pub mod_nanos : ℕ
  pub is_dir : Bool

-- file_handlers.Interface, as far as it is called here. The times are Unix seconds.
pub record Handler : Type 0 where
  pub check_file_path : Text → Bool
  pub is_finished : Text → Bool
  pub get_start_time_end_time : Text → Option (ℤ × ℤ)

unfoldable pub get_file_handler : List Handler → Text → Option Handler
get_file_handler [] p = none
get_file_handler (h ∷ hs) p = if h.check_file_path p then some h else get_file_handler hs p

module _ (abs : Text → Option Text) where
  -- A path without an absolute one is logged, and nothing is set.
  unfoldable pub set_file_state : States → Text → FileState → States
  set_file_state m p s = elim (abs p) [ none ↦ m | some a ↦ insert a s m ]

  -- Nothing: the error.
  unfoldable pub del_file_state : States → Text → Option States
  del_file_state m p = elim (abs p) [ none ↦ none | some a ↦ some (delete a m) ]

  unfoldable pub get_file_state : States → Text → Option FileState
  get_file_state m p = elim (abs p) [ none ↦ none | some a ↦ lookup a m ]

is_processed : ProcessState → Bool
is_processed processed = true
is_processed unprocessed = false
is_processed seen_once = false
is_processed ready_to_process = false

-- A file of which there is no state has none that is processed and supported.
unfoldable pub is_done : Option FileState → Bool
unfolding is_processed
is_done none = false
is_done (some s) = not s.unsupported && is_processed s.process_state

-- `info.ModTime().Before(time.Now().Add(-hours))`, where `now` is seconds and nanoseconds.
unfoldable pub is_before : FileInfo → ℤ × ℕ → ℕ → Bool
is_before info now hours =
    let limit = now.0 -ℤ pos (hours * 3600) in
    ltb_ℤ info.mod_unix limit || (info.mod_unix ==ℤ limit && ltb info.mod_nanos now.1)

-- What is written to disk.
pub record SavedState : Type 0 where
  pub state : States
  pub listen_dirs : List Text
  pub collect_dirs : List Text

-- `saved` is the state file. The directories are sets: lists without repetition.
pub record FileStateHandler : Type 0 where
  pub state : States
  pub listen_dirs : List Text
  pub collect_dirs : List Text
  pub saved : Option SavedState

-- Whether the file can be written is given; the answer says whether it was.
unfoldable pub save_state : Bool → FileStateHandler → FileStateHandler × Bool
save_state writes f =
    if writes
    then (
      record f {
        saved = some (record {
          state = f.state;
          listen_dirs = f.listen_dirs;
          collect_dirs = f.collect_dirs;
        });
      },
      true,
    )
    else (f, false)

-- The state file as it is read: what the JSON decoder filled in, whether or not it then stopped.
pub data StateFile : Type 0 where
  missing unreadable : StateFile
  contents : SavedState → StateFile

-- Nothing: the error.
unfoldable pub load_state : StateFile → FileStateHandler → Option FileStateHandler
load_state missing f = some f
load_state unreadable f = none
load_state (contents s) f =
    some (record f { state = s.state; listen_dirs = s.listen_dirs; collect_dirs = s.collect_dirs })
