-- ===== src/FileState/Ready.antt =====
-- When a listened file is offered for processing: the stages of a file and the choice of the files
-- that are ready (internal/mod/rule/file_state_handler/file_state_handler.go).
use co_scout.Prelude.{◌≤◌, ◌≡◌, refl, ◌∙◌, List, ◌∷◌, Option, none, some, Text, lookup, All, arith}
use co_scout.FileState.{FileState, Handler, FileStateHandler}
use co_scout.FileState.Stages.{IsKeyed}
use co_scout.FileState.Keys.{Absolute}
use co_scout.FileState.Listening.{Operation, Unmarked, stage, rounds, run, run-IsKeyed, run-stage}
use co_scout.FileState.Files.{
  FileFilter, filter_ready_to_process, find_pathname, matching, matched_state,
  find_pathname-matching,
}

early_lem :
    (filters : List FileFilter) (p : Text) (o : Option FileState)
    → stage o ≤ 1
    → matched_state (filter_ready_to_process ∷ filters) p o ≡ none
unfolding stage matched_state filter_ready_to_process
early_lem filters p none h = refl
early_lem filters p (some s) h = ground arith

module _ (abs : Text → Option Text) (handlers : List Handler) where
  -- A file without a state is not among the files that are ready to be processed before two rounds
  -- have gone by, whatever scans find in between, if nothing marks it: a file that is still being
  -- written when it is first seen has that long to be finished.
  pub find_pathname-run :
      Absolute abs handlers
      → (f : FileStateHandler) (ops : List Operation) (filters : List FileFilter) (p : Text)
      → IsKeyed abs f.state
      → All (Unmarked abs handlers p) ops
      → lookup p f.state ≡ none
      → rounds ops ≤ 1
      → find_pathname p
          (matching (filter_ready_to_process ∷ filters) (run abs handlers f ops).state)
        ≡ none
  unfolding stage
  find_pathname-run clean f ops filters p k u new early =
      let bound = run-stage abs handlers clean f ops p k u in
      let start : stage (lookup p f.state) ≡ 0 = rw new refl in
      find_pathname-matching abs (filter_ready_to_process ∷ filters) (run abs handlers f ops).state
        p (run-IsKeyed abs handlers clean f ops k)
      ∙ early_lem filters p (lookup p (run abs handlers f ops).state)
          (omega (arith, bound, start, early))
