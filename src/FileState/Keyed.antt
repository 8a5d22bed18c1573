-- ===== src/FileState/Keyed.antt =====
-- Deleting and restoring states keeps each of them at its absolute path
-- (internal/mod/rule/file_state_handler/file_state_handler.go).
use co_scout.Prelude.{
  List, [], ◌∷◌, Option, none, some, Text, text_eq, delete, lookup-delete, arith, Bool-cases,
  Option-cases, inl, inr, has_prefix,
}
use co_scout.FileState.{States, Handler, set_file_state, del_file_state}
use co_scout.FileState.Stages.{IsKeyed}
use co_scout.FileState.Keys.{Absolute, set_file_state-IsKeyed}
use co_scout.FileState.Cleanup.{deleted, drop_file, drop_files}
use co_scout.FileState.Rollback.{Checkpoints, restore_one, restore_file_states}

module _ (abs : Text → Option Text) (handlers : List Handler) (clean : Absolute abs handlers) where
  pub delete-IsKeyed : (m : States) (k : Text) → IsKeyed abs m → IsKeyed abs (delete k m)
  unfolding delete
  delete-IsKeyed [] k h = h
  delete-IsKeyed ((j, s) ∷ m) k h = elim (Bool-cases (text_eq j k)) [
    | inl e ↦ rw e (delete-IsKeyed m k h.2)
    | inr e ↦ rw e (h.0, ground (arith, lookup-delete k j m, h.1), delete-IsKeyed m k h.2)
  ]

  pub restore-IsKeyed :
      (m : States) (cps : Checkpoints) → IsKeyed abs m → IsKeyed abs (restore_file_states abs m cps)
  unfolding restore_file_states restore_one del_file_state
  restore-IsKeyed m [] h = h
  restore-IsKeyed m ((k, some s) ∷ cps) h =
      restore-IsKeyed (set_file_state abs m k s) cps
        (set_file_state-IsKeyed abs handlers clean m k s h)
  restore-IsKeyed m ((k, none) ∷ cps) h = elim (Option-cases (abs k)) [
    | inl e ↦ rw (restore_one, del_file_state, e) (restore-IsKeyed m cps h)
    | inr (a, e) ↦
        rw (restore_one, del_file_state, e)
          (restore-IsKeyed (delete a m) cps (delete-IsKeyed m a h))
  ]

  pub deleted-IsKeyed :
      (m : States) (k : Text)
      → IsKeyed abs m
      → IsKeyed abs (deleted abs m (del_file_state abs m k)).0
  unfolding deleted del_file_state
  deleted-IsKeyed m k h = elim (Option-cases (abs k)) [
    | inl e ↦ rw (deleted, del_file_state, e) h
    | inr (a, e) ↦ rw (deleted, del_file_state, e) (delete-IsKeyed m a h)
  ]

  drop_file-IsKeyed :
      (k : Text) (dirs : List Text) (m : States)
      → IsKeyed abs m
      → IsKeyed abs (drop_file abs k dirs m).0
  unfolding drop_file
  drop_file-IsKeyed k [] m h = h
  drop_file-IsKeyed k (dir ∷ dirs) m h = elim (Bool-cases (has_prefix k dir)) [
    | inr e ↦ rw (drop_file, e) (drop_file-IsKeyed k dirs m h)
    | inl e ↦
        let r = deleted abs m (del_file_state abs m k) in
        let one = deleted-IsKeyed m k h in
        elim (Bool-cases r.1) [
          | inl good ↦ rw (drop_file, e, good) (drop_file-IsKeyed k dirs r.0 one)
          | inr bad ↦ rw (drop_file, e, bad) one
        ]
  ]

  pub drop_files-IsKeyed :
      (ks dirs : List Text) (m : States) → IsKeyed abs m → IsKeyed abs (drop_files abs ks dirs m).0
  unfolding drop_files
  drop_files-IsKeyed [] dirs m h = h
  drop_files-IsKeyed (k ∷ ks) dirs m h =
      let one = drop_file-IsKeyed k dirs m h in
      elim (Bool-cases (drop_file abs k dirs m).1) [
        | inl e ↦ rw e (drop_files-IsKeyed ks dirs (drop_file abs k dirs m).0 one)
        | inr e ↦ rw e one
      ]
