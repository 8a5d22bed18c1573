-- ===== src/FileState/Sending.antt =====
-- sendFilesToBeProcessed of internal/mod/rule/handler.go: one round over the listened files. The
-- files that are sent to the channel are given, in their order.
mod Tests
use co_scout.Prelude.{
  ◌≡◌, refl, sym, ap, ◌∙◌, Bool, true, false, ◌&&◌, ◌||◌, List, [], ◌∷◌, Option, none, some,
  if◌then◌else◌, Text, text_eq, text_eq_iff, text_eq_refl, ℕ, lookup, lookup-insert, arith,
  Option-cases, Bool-cases, inl, inr,
}
use co_scout.Prelude.Int.{ℤ}
use co_scout.FileState.{
  FileState, FileStateHandler, Handler, get_file_state, set_file_state, processed, save_state,
}
use co_scout.FileState.Cleanup.{contains}
use co_scout.FileState.Files.{
  files, filter_is_listening, filter_ready_to_process, find_pathname, matching, matched_state,
  find_pathname-matching,
}
use co_scout.FileState.Stages.{update_files_process_state, mark_processed_file, IsKeyed}
use co_scout.FileState.Update.{FileSystem, Conf, update_listen_dirs}

module _ (abs : Text → Option Text) (fs : FileSystem) (handlers : List Handler)
    (sort_slice : (FileState → FileState → Bool) → List FileState → List FileState)
    (writes : Bool) where
  -- A file that cannot be marked is sent all the same.
  unfoldable pub mark_and_send : List FileState → FileStateHandler → FileStateHandler × List Text
  mark_and_send [] f = (f, [])
  mark_and_send (s ∷ ss) f =
      let (f', sent) = mark_and_send ss (mark_processed_file abs writes f s.pathname).0 in
      (f', s.pathname ∷ sent)

  send_ready : FileStateHandler × Bool → FileStateHandler × List Text
  unfolding mark_and_send
  send_ready (f, false) = (f, [])
  send_ready (f, true) =
      mark_and_send (files sort_slice (filter_is_listening ∷ filter_ready_to_process ∷ []) f) f

  send_updated : FileStateHandler × Bool → FileStateHandler × List Text
  unfolding send_ready
  send_updated (f, false) = (f, [])
  send_updated (f, true) = send_ready (update_files_process_state abs writes f)

  send_listened : List Text → ℤ × ℕ → Conf → FileStateHandler → FileStateHandler × List Text
  unfolding send_updated
  send_listened [] now conf f = (f, [])
  send_listened (dir ∷ dirs) now conf f =
      send_updated (update_listen_dirs abs fs handlers writes now conf f)

  unfoldable pub send_files_to_be_processed :
      ℤ × ℕ → Conf → FileStateHandler → FileStateHandler × List Text
  unfolding send_listened
  send_files_to_be_processed now conf f = send_listened conf.listen_dirs now conf f

marked : Option FileState → Option FileState
marked none = none
marked (some s) = some (record s { process_state = processed })

marked_twice : (o : Option FileState) → marked (marked o) ≡ marked o
unfolding marked
marked_twice none = refl
marked_twice (some s) = refl

-- A marked file passes no filter for those that are ready.
not_ready :
    (p : Text) (o : Option FileState)
    → matched_state (filter_is_listening ∷ filter_ready_to_process ∷ []) p (marked o) ≡ none
unfolding marked matched_state filter_is_listening filter_ready_to_process
not_ready p none = refl
not_ready p (some s) = ground arith

save_state-state : (writes : Bool) (f : FileStateHandler) → (save_state writes f).0.state ≡ f.state
unfolding save_state
save_state-state true f = refl
save_state-state false f = refl

module _ (abs : Text → Option Text) (writes : Bool) where
  -- Marking a file changes its state and no other.
  lookup-mark :
      (f : FileStateHandler) (q a p : Text)
      → abs q ≡ some a
      → lookup p (mark_processed_file abs writes f q).0.state
        ≡ (if text_eq a p then marked (lookup p f.state) else lookup p f.state)
  unfolding mark_processed_file get_file_state set_file_state marked
  lookup-mark f q a p e = elim (Option-cases (lookup a f.state)) [
    | inl gone ↦
        rw (mark_processed_file, get_file_state, e, gone) (ground (arith, text_eq_iff a p, gone))
    | inr (s, there) ↦
        rw
          (
            mark_processed_file,
            get_file_state,
            e,
            there,
            save_state-state writes (record f {
              state = set_file_state abs f.state q (record s { process_state = processed });
            }),
            set_file_state,
            e,
            lookup-insert a p (record s { process_state = processed }) f.state,
          )
          (ground (arith, text_eq_iff a p, there))
  ]

  -- A state that is marked stays so.
  mark-IsMarked :
      (f : FileStateHandler) (q p : Text)
      → marked (lookup p f.state) ≡ lookup p f.state
      → marked (lookup p (mark_processed_file abs writes f q).0.state)
        ≡ lookup p (mark_processed_file abs writes f q).0.state
  unfolding mark_processed_file get_file_state
  mark-IsMarked f q p h = elim (Option-cases (abs q)) [
    | inl none_there ↦ rw (mark_processed_file, get_file_state, none_there) h
    | inr (a, e) ↦ rw (lookup-mark f q a p e) (ground (arith, h, marked_twice (lookup p f.state)))
  ]

module _ (abs : Text → Option Text) (fs : FileSystem) (handlers : List Handler)
    (sort_slice : (FileState → FileState → Bool) → List FileState → List FileState)
    (writes : Bool) where
  sends-IsMarked :
      (ss : List FileState) (f : FileStateHandler) (p : Text)
      → marked (lookup p f.state) ≡ lookup p f.state
      → let r = mark_and_send abs fs handlers sort_slice writes ss f in
        marked (lookup p r.0.state) ≡ lookup p r.0.state
  unfolding mark_and_send
  sends-IsMarked [] f p h = h
  sends-IsMarked (s ∷ ss) f p h =
      sends-IsMarked ss (mark_processed_file abs writes f s.pathname).0 p
        (mark-IsMarked abs writes f s.pathname p h)

  mark_and_send-IsMarked :
      (ss : List FileState) (f : FileStateHandler) (p : Text)
      → abs p ≡ some p
      → contains (mark_and_send abs fs handlers sort_slice writes ss f).1 p ≡ true
      → let r = mark_and_send abs fs handlers sort_slice writes ss f in
        marked (lookup p r.0.state) ≡ lookup p r.0.state
  unfolding mark_and_send contains
  mark_and_send-IsMarked [] f p a h = cc
  mark_and_send-IsMarked (s ∷ ss) f p a h = elim (Bool-cases (text_eq s.pathname p)) [
    | inl e ↦ sends-IsMarked ss (mark_processed_file abs writes f s.pathname).0 p (
        rw
          (
            lookup-mark abs writes f s.pathname p p (ap abs ((text_eq_iff s.pathname p).0 e) ∙ a),
            text_eq_refl p,
          )
          (marked_twice (lookup p f.state)))
    | inr e ↦
        mark_and_send-IsMarked ss (mark_processed_file abs writes f s.pathname).0 p a
          (ground (arith, h, e))
  ]

  ready-IsMarked :
      (r : FileStateHandler × Bool) (p : Text)
      → abs p ≡ some p
      → let after = send_ready abs fs handlers sort_slice writes r in
        contains after.1 p ≡ true → marked (lookup p after.0.state) ≡ lookup p after.0.state
  unfolding send_ready contains
  ready-IsMarked (f, false) p a h = cc
  ready-IsMarked (f, true) p a h =
      mark_and_send-IsMarked
        (files sort_slice (filter_is_listening ∷ filter_ready_to_process ∷ []) f) f p a h

  updated-IsMarked :
      (r : FileStateHandler × Bool) (p : Text)
      → abs p ≡ some p
      → let after = send_updated abs fs handlers sort_slice writes r in
        contains after.1 p ≡ true → marked (lookup p after.0.state) ≡ lookup p after.0.state
  unfolding send_updated contains
  updated-IsMarked (f, false) p a h = cc
  updated-IsMarked (f, true) p a h = ready-IsMarked (update_files_process_state abs writes f) p a h

  listened-IsMarked :
      (dirs : List Text) (now : ℤ × ℕ) (conf : Conf) (f : FileStateHandler) (p : Text)
      → abs p ≡ some p
      → let after = send_listened abs fs handlers sort_slice writes dirs now conf f in
        contains after.1 p ≡ true → marked (lookup p after.0.state) ≡ lookup p after.0.state
  unfolding send_listened contains
  listened-IsMarked [] now conf f p a h = cc
  listened-IsMarked (dir ∷ dirs) now conf f p a h =
      updated-IsMarked (update_listen_dirs abs fs handlers writes now conf f) p a h

  -- A file that a round sends to the channel is not ready to be processed after it, so the next
  -- call of `Files` does not give it again, also where its mark could not be saved.
  pub send_files_to_be_processed-find_pathname :
      (now : ℤ × ℕ) (conf : Conf) (f : FileStateHandler) (p : Text)
      → abs p ≡ some p
      → let after = send_files_to_be_processed abs fs handlers sort_slice writes now conf f in
        IsKeyed abs after.0.state
        → contains after.1 p ≡ true
        → find_pathname p
            (matching (filter_is_listening ∷ filter_ready_to_process ∷ []) after.0.state)
          ≡ none
  unfolding send_files_to_be_processed
  send_files_to_be_processed-find_pathname now conf f p a keyed h =
      let after = send_files_to_be_processed abs fs handlers sort_slice writes now conf f in
      find_pathname-matching abs (filter_is_listening ∷ filter_ready_to_process ∷ []) after.0.state
        p keyed
      ∙ ap (matched_state (filter_is_listening ∷ filter_ready_to_process ∷ []) p)
          (sym (listened-IsMarked conf.listen_dirs now conf f p a h))
      ∙ not_ready p (lookup p after.0.state)
