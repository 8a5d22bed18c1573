-- ===== src/FileState/Process.antt =====
-- processListenFile and processCollectFile of
-- internal/mod/rule/file_state_handler/file_state_handler.go. The birth time of a file, which
-- times.Stat of djherbis/times gives where there is one, is a parameter, with its modification
-- time.
use co_scout.Prelude.{
  ℕ, Bool, true, false, not, ◌&&◌, List, Option, none, some, if◌then◌else◌, Text,
}
use co_scout.Prelude.Int.{ℤ, pos, ◌==ℤ◌}
use co_scout.FileState.{
  processed, FileState, empty_state, States, FileInfo, Handler, get_file_handler, set_file_state,
  get_file_state, is_done, is_before,
}

-- The state of a file that no handler can read.
unsupported_state : FileInfo → ℤ → FileState
unsupported_state info modify_time = record empty_state {
  size = info.size;
  modify_time = modify_time;
  unsupported = true;
}

state_or_empty : Option FileState → FileState
state_or_empty none = empty_state
state_or_empty (some s) = s

-- Supported, or not known.
not_unsupported : Option FileState → Bool
not_unsupported none = true
not_unsupported (some s) = not s.unsupported

modified_at : Option FileState → ℤ → Bool
modified_at none t = false
modified_at (some s) t = s.modify_time ==ℤ t

module _ (abs : Text → Option Text) (handlers : List Handler) where
  -- What is stored for a file under a listened directory; nothing if its state stays.
  unfoldable pub listened : Text → FileInfo → ℤ × ℕ → ℕ → Option FileState → Option FileState
  unfolding is_done unsupported_state state_or_empty not_unsupported
  listened p info now hours old = if is_done old then none else elim (get_file_handler handlers p) [
    | none ↦ if not_unsupported old then some (unsupported_state info (pos 0)) else none
    | some h ↦
        if not info.is_dir && is_before info now hours
        then some (record (unsupported_state info (pos 0)) { too_old = true })
        else if h.is_finished p
        then some (record (state_or_empty old) {
          size = info.size;
          modify_time = info.mod_unix;
          is_listening = true;
          unsupported = false;
          too_old = false;
        })
        else none
  ]

  unfoldable pub store : States → Text → Option FileState → States
  store m p none = m
  store m p (some s) = set_file_state abs m p s

  unfoldable pub process_listen_file : States → Text → FileInfo → ℤ × ℕ → ℕ → States
  unfolding listened store
  process_listen_file m p info now hours =
      store m p (listened p info now hours (get_file_state abs m p))

  module _ (birth_times : Text → Option (ℤ × ℤ)) where
    -- The state of a file whose time range is known, or not.
    collected_new : FileInfo → Option (ℤ × ℤ) → FileState
    unfolding unsupported_state
    collected_new info none = unsupported_state info info.mod_unix
    collected_new info (some (start, end)) = record empty_state {
      size = info.size;
      start_time = start;
      end_time = end;
      modify_time = info.mod_unix;
      is_collecting = true;
      process_state = processed;
    }

    time_range : Text → Handler → Option (ℤ × ℤ)
    time_range p h = elim (birth_times p) [ none ↦ h.get_start_time_end_time p | some r ↦ some r ]

    -- What is stored for a file under a collected directory; nothing if its state stays.
    unfoldable pub collected : Text → FileInfo → Option FileState → Option FileState
    unfolding is_done unsupported_state state_or_empty modified_at collected_new time_range
    collected p info old =
        if is_done old && modified_at old info.mod_unix
        then none
        else elim (get_file_handler handlers p) [
          | none ↦ some (unsupported_state info info.mod_unix)
          | some h ↦
              if not (modified_at old info.mod_unix)
              then some (collected_new info (time_range p h))
              else some
                  (record (state_or_empty old) { is_collecting = true; process_state = processed })
        ]

    unfoldable pub process_collect_file : States → Text → FileInfo → States
    unfolding collected store
    process_collect_file m p info = store m p (collected p info (get_file_state abs m p))
