-- ===== src/FileState/Tests.antt =====
-- The theorems about file states at concrete files.
use co_scout.Prelude.{
  arith, ◌≡◌, refl, true, false, not, if◌then◌else◌, List, [], ◌∷◌, Option, none, some, Text, codes,
  lookup, keys, text_eq, has_prefix,
}
use co_scout.Prelude.Int.{pos}
use co_scout.FileState.{
  ready_to_process, processed, FileState, empty_state, FileInfo, Handler, FileStateHandler, is_done,
}
use co_scout.FileState.Stages.{IsKeyed}
use co_scout.FileState.Listening.{Operation, scans, advances, rounds, run, Spared, run-done}
use co_scout.FileState.Cleanup.{is_gone, there, under, drop_files, lookup-drop_files-keys}
use co_scout.FileState.Rollback.{walk_directory}
use co_scout.FileState.Update.{
  FileSystem, Conf, update_directory, listens, readable_dirs, is_directory,
}
use co_scout.FileState.Outcome.{visits, update_directory-failed}
use co_scout.FileState.Ready.{find_pathname-run}
use co_scout.FileState.Files.{filter_ready_to_process, find_pathname, matching}

abbrev abs : Text → Option Text
abs p = some p

abbrev bag : Text
bag = codes "/data/a.bag"

abbrev other : Text
other = codes "/data2/b.bag"

abbrev handler : Handler
handler = record {
  check_file_path = λ p. true;
  is_finished = λ p. true;
  get_start_time_end_time = λ p. some (pos 100, pos 200);
}

abbrev info : FileInfo
info = record { size = pos 7; mod_unix = pos 5000; mod_nanos = 0; is_dir = false }

abbrev dir_info : FileInfo
dir_info = record info { is_dir = true }

abbrev done_state : FileState
done_state = record empty_state { is_listening = true; process_state = processed }

abbrev ready_state : FileState
ready_state = record empty_state { is_listening = true; process_state = ready_to_process }

abbrev two_files : FileStateHandler
two_files = record {
  state = (bag, done_state) ∷ (other, ready_state) ∷ [];
  listen_dirs = codes "/data" ∷ [];
  collect_dirs = codes "/data" ∷ [];
  saved = none;
}

abbrev no_files : FileStateHandler
no_files = record two_files { state = [] }

two_files-IsKeyed : IsKeyed abs two_files.state
unfolding lookup text_eq
two_files-IsKeyed = (refl, refl, (refl, refl, tt))

-- The directory is walked up to a file that is met before the walk fails.
abbrev broken_walk : FileSystem
broken_walk = record {
  readable = λ p. not (text_eq p other);
  stat = λ p. if text_eq p (codes "/data") then there dir_info else there info;
  read_dir = λ d. none;
  walk = λ d. (bag ∷ other ∷ [], true);
}

abbrev conf : Conf
conf = record {
  listen_dirs = codes "/data" ∷ [];
  collect_dirs = codes "/data" ∷ [];
  recursively_walk_dirs = true;
  skip_period_hours = 1;
}

abbrev whole_walk : FileSystem
whole_walk = record broken_walk { walk = λ d. (bag ∷ [], false) }

abbrev history : List Operation
history =
    scans broken_walk true (pos 6000, 0) conf
    ∷ advances true
    ∷ scans whole_walk true (pos 6060, 0) conf
    ∷ []

history_spares : Spared abs (handler ∷ []) bag two_files history
unfolding text_eq is_gone readable_dirs under co_scout.FileState.Cleanup.difference
    co_scout.FileState.Listening.step co_scout.FileState.Stages.update_files_process_state
    co_scout.FileState.save_state co_scout.FileState.Update.update_listen_dirs drop_files keys
    co_scout.FileState.Cleanup.update_deleted_file_state
    co_scout.FileState.Update.update_directories update_directory walk_directory
    co_scout.FileState.Rollback.checkpoint_file_state lookup co_scout.Prelude.insert
    co_scout.FileState.get_file_state co_scout.FileState.set_file_state
    co_scout.FileState.Cleanup.clean_files co_scout.FileState.Process.process_listen_file
    co_scout.FileState.Update.finish_update is_directory listens is_done
    co_scout.FileState.Rollback.restore_file_states co_scout.FileState.Rollback.walk_all
    co_scout.FileState.Stages.advance_all
history_spares = (refl, refl, (refl, refl, tt))

run-done_example : lookup bag (run abs (handler ∷ []) two_files history).state ≡ some done_state
unfolding lookup text_eq is_done
run-done_example =
    run-done abs (handler ∷ []) (λ q a e. refl) two_files history bag two_files-IsKeyed
      history_spares refl

find_pathname-run_example :
    find_pathname bag
      (matching (filter_ready_to_process ∷ []) (run abs (handler ∷ []) no_files history).state)
    ≡ none
unfolding lookup rounds
find_pathname-run_example =
    find_pathname-run abs (handler ∷ []) (λ q a e. refl) no_files history [] bag tt
      (tt, (tt, (tt, tt))) refl (omega arith)

update_directory-failed_example :
    lookup bag
      (update_directory abs broken_walk true
        (visits abs broken_walk
          (handler ∷ [])
          false
          (λ p. none)
          (λ q p. none)
          []
          (pos 6000, 0)
          1
          true)
        (codes "/data")
        []).0
    ≡ none
unfolding lookup update_directory text_eq walk_directory visits listens
update_directory-failed_example =
    update_directory-failed abs broken_walk (handler ∷ []) false (λ p. none) (λ q p. none) []
      (pos 6000, 0) 1 true (codes "/data") bag [] (λ q a e. refl) refl

lookup-drop_files-keys_example :
    ((drop_files abs (keys two_files.state) (codes "/data" ∷ []) two_files.state).1 ≡ true)
    × (lookup other (drop_files abs (keys two_files.state) (codes "/data" ∷ []) two_files.state).0
        ≡ none)
unfolding under has_prefix
lookup-drop_files-keys_example =
    lookup-drop_files-keys abs other (codes "/data" ∷ []) two_files.state two_files-IsKeyed

abbrev spanning : FileState
spanning = record empty_state { start_time = pos 1; end_time = pos 9 }

abbrev spanned : FileState
spanned = record empty_state { start_time = pos 2; end_time = pos 3 }
