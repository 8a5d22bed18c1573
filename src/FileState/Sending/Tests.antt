-- ===== src/FileState/Sending/Tests.antt =====
-- A file that was seen once is ready in the next round, and is sent (internal/mod/rule/handler.go).
use co_scout.Prelude.{
  ◌≡◌, refl, true, false, [], ◌∷◌, Option, none, some, Text, codes, lookup, text_eq, insert, keys,
}
use co_scout.Prelude.Int.{pos}
use co_scout.FileState.{
  empty_state, seen_once, FileInfo, FileStateHandler, set_file_state, get_file_state, save_state,
}
use co_scout.FileState.Cleanup.{there, contains, difference, drop_files, update_deleted_file_state}
use co_scout.FileState.Files.{
  filter_is_listening, filter_ready_to_process, find_pathname, matching, files,
}
use co_scout.FileState.Stages.{update_files_process_state, mark_processed_file}
use co_scout.FileState.Update.{
  FileSystem, Conf, update_listen_dirs, update_directory, update_directories,
}
use co_scout.FileState.Sending.{
  send_files_to_be_processed, send_files_to_be_processed-find_pathname,
}

abbrev info : FileInfo
info = record { size = pos 7; mod_unix = pos 5000; mod_nanos = 0; is_dir = true }

abbrev disk : FileSystem
disk = record {
  readable = λ p. true;
  stat = λ p. there info;
  read_dir = λ p. some [];
  walk = λ p. ([], false);
}

abbrev conf : Conf
conf = record {
  listen_dirs = codes "d" ∷ [];
  collect_dirs = [];
  recursively_walk_dirs = false;
  skip_period_hours = 1;
}

abbrev before : FileStateHandler
before = record {
  state = (codes "d/a", record empty_state { is_listening = true; process_state = seen_once }) ∷ [];
  listen_dirs = codes "d" ∷ [];
  collect_dirs = [];
  saved = none;
}

abbrev abs : Text → Option Text
abs p = some p

sends_it :
    (send_files_to_be_processed abs disk [] (λ lt ss. ss) true (pos 9000, 0) conf before).1
    ≡ codes "d/a" ∷ []
unfolding send_files_to_be_processed update_listen_dirs drop_files keys difference text_eq
    update_deleted_file_state update_directories update_directory save_state
    update_files_process_state files set_file_state insert filter_is_listening
    filter_ready_to_process
sends_it = refl

send_files_to_be_processed-find_pathname_example :
    find_pathname (codes "d/a") (
      matching
        (filter_is_listening ∷ filter_ready_to_process ∷ [])
        (send_files_to_be_processed abs disk []
          (λ lt ss. ss)
          true
          (pos 9000, 0)
          conf
          before).0.state)
    ≡ none
unfolding send_files_to_be_processed update_listen_dirs drop_files keys difference text_eq
    update_deleted_file_state update_directories update_directory save_state
    update_files_process_state files set_file_state insert filter_is_listening
    filter_ready_to_process contains lookup mark_processed_file get_file_state
send_files_to_be_processed-find_pathname_example =
    send_files_to_be_processed-find_pathname abs disk [] (λ lt ss. ss) true (pos 9000, 0) conf
      before (codes "d/a") refl (refl, refl, tt) refl
