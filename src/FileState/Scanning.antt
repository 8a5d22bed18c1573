-- ===== src/FileState/Scanning.antt =====
-- What UpdateListenDirs of internal/mod/rule/file_state_handler/file_state_handler.go keeps of the
-- state of one file: anything that a visit of a listened file keeps, unless the state is deleted.
use co_scout.Prelude.{
  ℕ, ◌≡◌, ◌⊎◌, refl, Bool, true, false, List, [], ◌∷◌, Option, none, some, Text, text_eq,
  text_eq_iff, lookup, lookup-delete, keys, Bool-cases, inl, inr,
}
use co_scout.Prelude.Int.{ℤ}
use co_scout.FileState.{
  FileState, States, FileInfo, Handler, FileStateHandler, del_file_state, save_state,
}
use co_scout.FileState.Process.{listened}
use co_scout.FileState.Stages.{first_some}
use co_scout.FileState.Keys.{Absolute}
use co_scout.FileState.Cleanup.{
  Stat, there, gone, stat_error, is_gone, difference, under, deleted, drop_files, clean_file,
  clean_files, update_deleted_file_state, lookup-drop_files-keys, AreAbsolute, keys-AreAbsolute,
}
use co_scout.FileState.Update.{
  FileSystem, Conf, readable_dirs, finish_update, update_directories, listens, update_listen_dirs,
}
use co_scout.FileState.Keyed.{drop_files-IsKeyed, deleted-IsKeyed}
use co_scout.FileState.Visits.{Inv, update_directories-Inv}

module _ (abs : Text → Option Text) (handlers : List Handler) (clean : Absolute abs handlers) where
  module _ (p : Text) (Q : Option FileState → Type 0)
      (kept : (q : Text) (info : FileInfo) (now : ℤ × ℕ) (hours : ℕ) (o : Option FileState)
        → Q o
        → Q (first_some (listened abs handlers q info now hours o) o)) where
    dropped-Inv :
        (dirs : List Text) (m : States)
        → Q none ⊎ (under abs dirs p ≡ false)
        → Inv abs handlers clean p Q kept m
        → Inv abs handlers clean p Q kept (drop_files abs (keys m) dirs m).0
    dropped-Inv dirs m safe (k, h) = (
      drop_files-IsKeyed abs handlers clean (keys m) dirs m k,
      rw (lookup-drop_files-keys abs p dirs m k).1 (elim (Bool-cases (under abs dirs p)) [
        | inr e ↦ rw e h
        | inl e ↦ rw e (elim safe [ inl q ↦ q | inr not_under ↦ cc ])
      ]),
    )

    deleted-Inv :
        (stat : Text → Stat) (k : Text) (m : States)
        → abs k ≡ some k
        → stat k ≡ gone
        → Q none ⊎ (is_gone abs stat (stat p) ≡ false)
        → Inv abs handlers clean p Q kept m
        → Inv abs handlers clean p Q kept (deleted abs m (del_file_state abs m k)).0
    unfolding is_gone del_file_state deleted lookup
    deleted-Inv stat k m a e safe (keyed, h) = (
      deleted-IsKeyed abs handlers clean m k keyed,
      rw (del_file_state, a, deleted, lookup-delete k p m)
          (elim (Bool-cases (text_eq k p)) [
            | inr other ↦ rw other h
            | inl same ↦ rw same (elim safe [
              | inl q ↦ q
              | inr there_is ↦
                  let at : stat p ≡ gone = rw (← (text_eq_iff k p).0 same) e in
                  cc (rw at at there_is)
            ])
          ]),
    )

    clean_files-Inv :
        (stat : Text → Stat) (ks : List Text) (m : States)
        → AreAbsolute abs ks
        → Q none ⊎ (is_gone abs stat (stat p) ≡ false)
        → Inv abs handlers clean p Q kept m
        → Inv abs handlers clean p Q kept (clean_files abs stat ks m).0
    unfolding clean_files clean_file
    clean_files-Inv stat [] m a safe h = h
    clean_files-Inv stat (k ∷ ks) m a safe h =
        let r = clean_file abs stat k (stat k) m in
        let one = at (stat k) refl in
        elim (Bool-cases r.1) [
          | inl good ↦ rw good (clean_files-Inv stat ks r.0 a.1 safe one)
          | inr bad ↦ rw bad one
        ]
      where
        at : (o : Stat) → stat k ≡ o → Inv abs handlers clean p Q kept (clean_file abs stat k o m).0
        at gone e = deleted-Inv stat k m a.0 e safe h
        at stat_error e = h
        at (there info) e = h

    save-state : (writes : Bool) (f : FileStateHandler) → (save_state writes f).0.state ≡ f.state
    unfolding save_state
    save-state true f = refl
    save-state false f = refl

    finish_update-Inv :
        (fs : FileSystem) (writes : Bool) (f : FileStateHandler)
        → Q none ⊎ (is_gone abs fs.stat (fs.stat p) ≡ false)
        → Inv abs handlers clean p Q kept f.state
        → Inv abs handlers clean p Q kept (finish_update abs fs writes f).0.state
    unfolding finish_update update_deleted_file_state
    finish_update-Inv fs writes f safe h =
        let r = clean_files abs fs.stat (keys f.state) f.state in
        let cleaned =
          clean_files-Inv fs.stat (keys f.state) f.state (keys-AreAbsolute abs f.state h.0) safe
            h in
        elim (Bool-cases r.1) [
          | inl e ↦ rw (e, save-state writes (record f { state = r.0 })) cleaned
          | inr e ↦ rw e cleaned
        ]

    -- The directories that an update of the listened directories gives up.
    abbrev pub given_up : FileSystem → Conf → FileStateHandler → List Text
    given_up fs conf f = difference f.listen_dirs (readable_dirs fs.readable conf.listen_dirs)

    pub update_listen_dirs-Inv :
        (fs : FileSystem) (writes : Bool) (now : ℤ × ℕ) (conf : Conf) (f : FileStateHandler)
        → Q none
          ⊎ ((under abs (given_up fs conf f) p ≡ false) × (is_gone abs fs.stat (fs.stat p) ≡ false))
        → Inv abs handlers clean p Q kept f.state
        → Inv abs handlers clean p Q kept
            (update_listen_dirs abs fs handlers writes now conf f).0.state
    unfolding update_listen_dirs
    update_listen_dirs-Inv fs writes now conf f safe h =
        let new = readable_dirs fs.readable conf.listen_dirs in
        let r = drop_files abs (keys f.state) (difference f.listen_dirs new) f.state in
        let dropped =
          dropped-Inv (difference f.listen_dirs new) f.state
            (elim safe [ inl q ↦ inl q | inr s ↦ inr s.0 ]) h in
        let m =
          (update_directories abs fs conf.recursively_walk_dirs
            (listens abs fs handlers now conf.skip_period_hours) new r.0).0 in
        let updated =
          update_directories-Inv abs handlers clean p Q kept fs conf.recursively_walk_dirs now
            conf.skip_period_hours new r.0 dropped in
        elim (Bool-cases r.1) [
          | inr e ↦ rw e dropped
          | inl e ↦ rw e (
              finish_update-Inv fs writes (record f { state = m; listen_dirs = new })
                (elim safe [ inl q ↦ inl q | inr s ↦ inr s.1 ]) updated)
        ]
