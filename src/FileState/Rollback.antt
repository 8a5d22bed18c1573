-- ===== src/FileState/Rollback.antt =====
-- The walk over a directory with its checkpoints
-- (internal/mod/rule/file_state_handler/file_state_handler.go). What WalkFilePaths of
-- pkg/utils/symwalk.go gives is the list of the files that it calls back for, and whether it then
-- fails.
use co_scout.Prelude.{
  ◌≡◌, ◌≢◌, refl, ◌∙◌, Bool, true, false, List, [], ◌∷◌, Option, none, some, is_some, if◌then◌else◌,
  Text, text_eq, text_eq_iff, lookup, insert, lookup-insert, lookup-delete, arith, Bool-cases,
  Option-cases, inl, inr, All,
}
use co_scout.FileState.{FileState, States, set_file_state, del_file_state, get_file_state}

-- The state of a file when it was first met, or that there was none.
abbrev pub Checkpoints : Type 0
Checkpoints = List (Text × Option FileState)

-- What the callback does with a file: it returns at once, it ends the walk by `filepath.SkipAll`,
-- or it takes a checkpoint and changes the states.
pub data Visit : Type 0 where
  passes_over stops_walk : Visit
  works : (States → States) → Visit

pub data Walked : Type 0 where
  completed stopped failed : Walked

module _ (abs : Text → Option Text) where
  record_new : Checkpoints → Text → Option FileState → Bool → Checkpoints
  record_new cps a o recorded = if recorded then cps else insert a o cps

  unfoldable pub checkpoint_file_state : States → Checkpoints → Text → Checkpoints
  unfolding record_new
  checkpoint_file_state m cps p = elim (abs p) [
    | none ↦ cps
    | some a ↦ record_new cps a (get_file_state abs m a) (is_some (lookup a cps))
  ]

  -- A state that cannot be deleted is logged.
  unfoldable pub restore_one : States → Text → Option FileState → States
  restore_one m k (some s) = set_file_state abs m k s
  restore_one m k none = elim (del_file_state abs m k) [ none ↦ m | some m' ↦ m' ]

  unfoldable pub restore_file_states : States → Checkpoints → States
  unfolding restore_one
  restore_file_states m [] = m
  restore_file_states m ((k, o) ∷ cps) = restore_file_states (restore_one m k o) cps

  unfoldable pub walk_all :
      (Text → Visit) → List Text → States → Checkpoints → States × Checkpoints × Bool
  walk_all visit [] m cps = (m, cps, false)
  walk_all visit (p ∷ ps) m cps = elim (visit p) [
    | passes_over ↦ walk_all visit ps m cps
    | stops_walk ↦ (m, cps, true)
    | works f ↦ walk_all visit ps (f m) (checkpoint_file_state m cps p)
  ]

  unfoldable pub after_walk : States × Checkpoints × Bool → Bool → States × Walked
  unfolding restore_file_states
  after_walk (m, cps, true) fails = (m, stopped)
  after_walk (m, cps, false) true = (restore_file_states m cps, failed)
  after_walk (m, cps, false) false = (m, completed)

  unfoldable pub walk_directory : (Text → Visit) → List Text × Bool → States → States × Walked
  unfolding after_walk walk_all
  walk_directory visit (paths, fails) m = after_walk (walk_all visit paths m []) fails

  -- A visit of a file changes the state at its absolute path and no other.
  abbrev pub Local : (Text → Visit) → Type 0
  Local visit =
      (p j : Text) (f : States → States) (m : States)
      → visit p ≡ works f
      → abs p ≢ some j
      → lookup j (f m) ≡ lookup j m

  abbrev pub Absolute : Type 0
  Absolute = (q a : Text) → abs q ≡ some a → abs a ≡ some a

  -- The checkpoints hold the states of the start, and what they do not hold is as it was.
  record Kept (start m : States) (cps : Checkpoints) : Type 0 where
    entries :
        All (λ (c : Text × Option FileState). (abs c.0 ≡ some c.0) × (c.1 ≡ lookup c.0 start)) cps
    others : (k : Text) → lookup k cps ≡ none → lookup k m ≡ lookup k start

  lookup-restore_one :
      (m : States) (k j : Text) (o : Option FileState)
      → abs k ≡ some k
      → lookup j (restore_one m k o) ≡ (if text_eq k j then o else lookup j m)
  unfolding restore_one set_file_state del_file_state
  lookup-restore_one m k j (some s) a = ground (arith, lookup-insert k j s m)
  lookup-restore_one m k j none a = ground (arith, lookup-delete k j m)

  restore-lookup :
      (start m : States) (cps : Checkpoints)
      → Kept start m cps
      → (j : Text) → lookup j (restore_file_states m cps) ≡ lookup j start
  unfolding restore_file_states lookup
  restore-lookup start m [] k j = k.others j refl
  restore-lookup start m ((i, o) ∷ cps) k j = restore-lookup start (restore_one m i o) cps kept j
    where
      kept : Kept start (restore_one m i o) cps
      kept = record {
        entries = k.entries.1;
        others = λ l none_left. ground (
          arith,
          lookup-restore_one m i l o k.entries.0.0,
          k.entries.0.1,
          k.others l,
          text_eq_iff i l,
        );
      }

  All-insert :
      (P : Text × Option FileState → Type 0) (k : Text) (o : Option FileState) (cps : Checkpoints)
      → P (k, o)
      → All P cps
      → All P (insert k o cps)
  unfolding insert
  All-insert P k o [] p h = (p, tt)
  All-insert P k o ((j, q) ∷ cps) p h = elim (Bool-cases (text_eq j k)) [
    | inl e ↦ rw e (p, h.1)
    | inr e ↦ rw e (h.0, All-insert P k o cps p h.1)
  ]

  record_new-Kept :
      (start m : States) (cps : Checkpoints) (p a : Text) (f : States → States)
      → Absolute
      → Kept start m cps
      → ((j : Text) → abs p ≢ some j → lookup j (f m) ≡ lookup j m)
      → abs p ≡ some a
      → Kept start (f m) (record_new cps a (get_file_state abs m a) (is_some (lookup a cps)))
  unfolding record_new get_file_state
  record_new-Kept start m cps p a f clean k local e = elim (Option-cases (lookup a cps)) [
    | inr (o, old) ↦
        rw (record_new, old)
          (record {
            entries = k.entries;
            others = λ j h. local j (λ eq. ground arith) ∙ k.others j h;
          })
    | inl new ↦
        rw (record_new, new)
          (record {
            entries =
                All-insert _ a (get_file_state abs m a) cps
                  (clean p a e, ground (arith, clean p a e, k.others a new)) k.entries;
            others = λ j h.
                let other : text_eq a j ≡ false =
                  ground (arith, lookup-insert a j (get_file_state abs m a) cps) in
                local j (λ eq. ground (arith, text_eq_iff a j))
                ∙ k.others j (ground (arith, lookup-insert a j (get_file_state abs m a) cps));
          })
  ]

  checkpoint-Kept :
      (start m : States) (cps : Checkpoints) (p : Text) (f : States → States)
      → Absolute
      → Kept start m cps
      → ((j : Text) → abs p ≢ some j → lookup j (f m) ≡ lookup j m)
      → Kept start (f m) (checkpoint_file_state m cps p)
  unfolding checkpoint_file_state
  checkpoint-Kept start m cps p f clean k local = elim (Option-cases (abs p)) [
    | inl e ↦
        rw (checkpoint_file_state, e)
          (record { entries = k.entries; others = λ j h. local j (λ eq. cc) ∙ k.others j h })
    | inr (a, e) ↦ rw (checkpoint_file_state, e) (record_new-Kept start m cps p a f clean k local e)
  ]

  walk_all-Kept :
      (visit : Text → Visit) (paths : List Text) (start m : States) (cps : Checkpoints)
      → Absolute
      → Local visit
      → Kept start m cps
      → Kept start (walk_all visit paths m cps).0 (walk_all visit paths m cps).1
  unfolding walk_all
  walk_all-Kept visit [] start m cps clean local k = k
  walk_all-Kept visit (p ∷ ps) start m cps clean local k =
      go (λ m' cps' k'. walk_all-Kept visit ps start m' cps' clean local k') (visit p) refl
    where
      Rest : States → Checkpoints → Type 0
      Rest m' cps' = Kept start (walk_all visit ps m' cps').0 (walk_all visit ps m' cps').1

      go :
          ((m' : States) (cps' : Checkpoints) → Kept start m' cps' → Rest m' cps')
          → (v : Visit) → visit p ≡ v
          → Kept start (walk_all visit (p ∷ ps) m cps).0 (walk_all visit (p ∷ ps) m cps).1
      go ih passes_over e = rw (walk_all, e) (ih m cps k)
      go ih stops_walk e = rw (walk_all, e) k
      go ih (works f) e =
          rw (walk_all, e)
            (ih (f m) (checkpoint_file_state m cps p)
              (checkpoint-Kept start m cps p f clean k (λ j. local p j f m e)))

  -- A directory whose walk fails leaves every file's state as it was before the walk, whatever
  -- files were visited, and however often: those that it changed are set back, and those that it
  -- brought in are deleted again.
  pub walk_directory_failed :
      (visit : Text → Visit) (w : List Text × Bool) (m : States) (j : Text)
      → Absolute
      → Local visit
      → (walk_directory visit w m).1 ≡ failed
      → lookup j (walk_directory visit w m).0 ≡ lookup j m
  unfolding walk_directory after_walk
  walk_directory_failed visit (paths, fails) m j clean local h =
      go (walk_all visit paths m []).2 fails refl h
    where
      kept : Kept m (walk_all visit paths m []).0 (walk_all visit paths m []).1
      kept =
          walk_all-Kept visit paths m m [] clean local
            (record { entries = tt; others = λ k e. refl })

      go :
          (halted broken : Bool)
          → (walk_all visit paths m []).2 ≡ halted
          → (after_walk
              ((walk_all visit paths m []).0, (walk_all visit paths m []).1, halted)
              broken).1
            ≡ failed
          → lookup j
              (after_walk
                ((walk_all visit paths m []).0, (walk_all visit paths m []).1, halted)
                broken).0
            ≡ lookup j m
      go true broken e h = cc
      go false true e h =
          restore-lookup m (walk_all visit paths m []).0 (walk_all visit paths m []).1 kept j
      go false false e h = cc
