-- ===== src/FileState/Cleanup.antt =====
-- The states that the updates of internal/mod/rule/file_state_handler/file_state_handler.go delete:
-- those of files under directories that are given up, and those of files that are gone.
use co_scout.Prelude.{
  ◌≡◌, refl, ◌∙◌, Bool, true, false, ◌&&◌, ◌||◌, List, [], ◌∷◌, Option, none, some, is_some,
  if◌then◌else◌, Text, text_eq, text_eq_iff, has_prefix, lookup, delete, keys, lookup-delete, arith,
  Bool-cases, inl, inr, All,
}
use co_scout.FileState.{States, FileInfo, del_file_state}
use co_scout.FileState.Stages.{IsKeyed}

pub data Stat : Type 0 where
  there : FileInfo → Stat
  gone stat_error : Stat

unfoldable pub contains : List Text → Text → Bool
contains [] x = false
contains (y ∷ ys) x = text_eq y x || contains ys x

unfoldable pub difference : List Text → List Text → List Text
unfolding contains
difference [] new = []
difference (d ∷ old) new =
    let rest = difference old new in if contains new d then rest else d ∷ rest

module _ (abs : Text → Option Text) where
  unfoldable pub deleted : States → Option States → States × Bool
  deleted m none = (m, false)
  deleted m (some m') = (m', true)

  -- The states of a file under one of the directories; the answer is whether there was no error.
  unfoldable pub drop_file : Text → List Text → States → States × Bool
  unfolding deleted
  drop_file k [] m = (m, true)
  drop_file k (dir ∷ dirs) m =
      let (m', done) =
        (if has_prefix k dir then deleted m (del_file_state abs m k) else (m, true)) in
      let rest = drop_file k dirs m' in if done then rest else (m', false)

  unfoldable pub drop_files : List Text → List Text → States → States × Bool
  unfolding drop_file
  drop_files [] dirs m = (m, true)
  drop_files (k ∷ ks) dirs m =
      let (m', done) = drop_file k dirs m in
      let rest = drop_files ks dirs m' in if done then rest else (m', false)

  module _ (stat : Text → Stat) where
    unfoldable pub clean_file : Text → Stat → States → States × Bool
    unfolding deleted
    clean_file k gone m = deleted m (del_file_state abs m k)
    clean_file k stat_error m = (m, false)
    clean_file k (there info) m = (m, true)

    unfoldable pub clean_files : List Text → States → States × Bool
    unfolding clean_file
    clean_files [] m = (m, true)
    clean_files (k ∷ ks) m =
        let (m', done) = clean_file k (stat k) m in
        let rest = clean_files ks m' in if done then rest else (m', false)

    unfoldable pub update_deleted_file_state : States → States × Bool
    unfolding clean_files
    update_deleted_file_state m = clean_files (keys m) m

  abbrev pub AreAbsolute : List Text → Type 0
  AreAbsolute ks = All (λ (k : Text). abs k ≡ some k) ks

  pub keys-AreAbsolute : (m : States) → IsKeyed abs m → AreAbsolute (keys m)
  unfolding keys
  keys-AreAbsolute [] h = tt
  keys-AreAbsolute ((k, s) ∷ m) h = (h.0, keys-AreAbsolute m h.2)

  contains-keys : (m : States) (p : Text) → contains (keys m) p ≡ is_some (lookup p m)
  unfolding contains keys lookup
  contains-keys [] p = refl
  contains-keys ((k, s) ∷ m) p = ground (arith, contains-keys m p)

  -- Whether one of the directories is a prefix of the path.
  unfoldable pub under : List Text → Text → Bool
  under [] p = false
  under (dir ∷ dirs) p = has_prefix p dir || under dirs p

  lookup-drop_file :
      (k p : Text) (dirs : List Text) (m : States)
      → abs k ≡ some k
      → ((drop_file k dirs m).1 ≡ true)
        × (lookup p (drop_file k dirs m).0
            ≡ (if under dirs k && text_eq k p then none else lookup p m))
  unfolding drop_file deleted del_file_state under
  lookup-drop_file k p [] m a = (refl, refl)
  lookup-drop_file k p (dir ∷ dirs) m a = elim (Bool-cases (has_prefix k dir)) [
    | inl e ↦
        let ih = lookup-drop_file k p dirs (delete k m) a in
        rw (drop_file, e, del_file_state, a, deleted)
          (ih.0, ground (arith, ih.1, lookup-delete k p m))
    | inr e ↦ let ih = lookup-drop_file k p dirs m a in rw (drop_file, e) (ih.0, ih.1)
  ]

  lookup-drop_files :
      (ks : List Text) (p : Text) (dirs : List Text) (m : States)
      → AreAbsolute ks
      → ((drop_files ks dirs m).1 ≡ true)
        × (lookup p (drop_files ks dirs m).0
            ≡ (if contains ks p && under dirs p then none else lookup p m))
  unfolding drop_files contains
  lookup-drop_files [] p dirs m a = (refl, refl)
  lookup-drop_files (k ∷ ks) p dirs m a =
      let one = lookup-drop_file k p dirs m a.0 in
      let ih = lookup-drop_files ks p dirs (drop_file k dirs m).0 a.1 in
      (ground (arith, one.0, ih.0), ground (arith, one.0, one.1, ih.1, text_eq_iff k p))

  -- Giving directories up never fails on a map whose keys are absolute, and a file keeps its state
  -- just if none of them is a prefix of its path, as texts: the path separator is not looked at.
  pub lookup-drop_files-keys :
      (p : Text) (dirs : List Text) (m : States)
      → IsKeyed abs m
      → ((drop_files (keys m) dirs m).1 ≡ true)
        × (lookup p (drop_files (keys m) dirs m).0 ≡ (if under dirs p then none else lookup p m))
  lookup-drop_files-keys p dirs m h =
      let all = lookup-drop_files (keys m) p dirs m (keys-AreAbsolute m h) in
      (all.0, all.1 ∙ ground (arith, contains-keys m p))

  module _ (stat : Text → Stat) where
    unfoldable pub is_gone : Stat → Bool
    is_gone gone = true
    is_gone stat_error = false
    is_gone (there info) = false

    lookup-clean_file :
        (k p : Text) (m : States)
        → abs k ≡ some k
        → (clean_file stat k (stat k) m).1 ≡ true
        → lookup p (clean_file stat k (stat k) m).0
          ≡ (if text_eq k p && is_gone (stat p) then none else lookup p m)
    unfolding clean_file deleted del_file_state is_gone
    lookup-clean_file k p m a done = ground (arith, lookup-delete k p m, text_eq_iff k p)

    clean_files-cons :
        (k : Text) (ks : List Text) (m : States)
        → (clean_files stat (k ∷ ks) m).1 ≡ true
        → ((clean_file stat k (stat k) m).1 ≡ true)
          × ((clean_files stat ks (clean_file stat k (stat k) m).0).1 ≡ true)
          × ((clean_files stat (k ∷ ks) m).0
              ≡ (clean_files stat ks (clean_file stat k (stat k) m).0).0)
    unfolding clean_files
    clean_files-cons k ks m h = ground arith

    lookup-clean_files :
        (ks : List Text) (p : Text) (m : States)
        → AreAbsolute ks
        → (clean_files stat ks m).1 ≡ true
        → lookup p (clean_files stat ks m).0
          ≡ (if contains ks p && is_gone (stat p) then none else lookup p m)
    unfolding contains clean_files
    lookup-clean_files [] p m a done = cc
    lookup-clean_files (k ∷ ks) p m a done =
        let parts = clean_files-cons k ks m done in
        let one = lookup-clean_file k p m a.0 parts.0 in
        let ih = lookup-clean_files ks p (clean_file stat k (stat k) m).0 a.1 parts.1 in
        ground (arith, parts.2, one, ih)

    -- When the cleaning succeeds, a file that is gone has no state left, and every other file has
    -- the state that it had.
    pub lookup-update_deleted_file_state :
        (p : Text) (m : States)
        → IsKeyed abs m
        → (update_deleted_file_state stat m).1 ≡ true
        → lookup p (update_deleted_file_state stat m).0
          ≡ (if is_gone (stat p) then none else lookup p m)
    unfolding update_deleted_file_state
    lookup-update_deleted_file_state p m h done =
        lookup-clean_files (keys m) p m (keys-AreAbsolute m h) done
        ∙ ground (arith, contains-keys m p)
