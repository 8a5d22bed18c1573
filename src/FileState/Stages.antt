-- ===== src/FileState/Stages.antt =====
-- UpdateFilesProcessState and MarkProcessedFile of
-- internal/mod/rule/file_state_handler/file_state_handler.go, and the way of a listened file from
-- its first sight to the rule engine.
use co_scout.Prelude.{
  ◌≡◌, refl, Bool, false, not, [], ◌∷◌, Option, none, some, if◌then◌else◌, Text, text_eq,
  text_eq_iff, lookup, insert, lookup-insert, arith, Bool-cases, inl, inr,
}
use co_scout.FileState.{
  ProcessState, unprocessed, seen_once, ready_to_process, processed, FileState, States,
  FileStateHandler, set_file_state, get_file_state, save_state,
}

-- The state after the switch, or nothing where it says `continue`.
next_stage : FileState → ProcessState → Option FileState
next_stage s unprocessed = some (record s { process_state = seen_once })
next_stage s seen_once = some (record s { process_state = ready_to_process })
next_stage s ready_to_process = none
next_stage s processed = none

unfoldable pub advanced : FileState → Option FileState
unfolding next_stage
advanced s = if not s.is_listening then none else next_stage s s.process_state

abbrev pub first_some {ℓ} : {A : Type ℓ} → Option A → Option A → Option A
first_some none d = d
first_some (some a) d = some a

unfoldable pub advanced_of : Option FileState → Option FileState
unfolding advanced
advanced_of none = none
advanced_of (some s) = advanced s

module _ (abs : Text → Option Text) where
  unfoldable pub set_if : States → Text → Option FileState → States
  set_if m k none = m
  set_if m k (some s) = set_file_state abs m k s

  -- The loop over the entries; it only replaces states, so each is met as it was at the start.
  unfoldable pub advance_all : States → States → States
  unfolding advanced set_if
  advance_all [] m = m
  advance_all ((k, s) ∷ entries) m = advance_all entries (set_if m k (advanced s))

  unfoldable pub update_files_process_state : Bool → FileStateHandler → FileStateHandler × Bool
  unfolding advance_all
  update_files_process_state writes f =
      save_state writes (record f { state = advance_all f.state f.state })

  -- Nothing is changed and the answer is an error if there is no state of the file.
  unfoldable pub mark_processed_file : Bool → FileStateHandler → Text → FileStateHandler × Bool
  mark_processed_file writes f p = elim (get_file_state abs f.state p) [
    | none ↦ (f, false)
    | some s ↦
        save_state writes (record f {
          state = set_file_state abs f.state p (record s { process_state = processed });
        })
  ]

  -- Every key is its own absolute path, and has one entry.
  abbrev pub IsKeyed : States → Type 0
  IsKeyed [] = Unit {0}
  IsKeyed ((k, s) ∷ m) = (abs k ≡ some k) × (lookup k m ≡ none) × IsKeyed m

  pub insert-IsKeyed :
      (m : States) (k : Text) (s : FileState) → abs k ≡ some k → IsKeyed m → IsKeyed (insert k s m)
  unfolding insert lookup
  insert-IsKeyed [] k s a h = (a, refl, tt)
  insert-IsKeyed ((j, t) ∷ m) k s a h = elim (Bool-cases (text_eq j k)) [
    | inl e ↦ let p = (text_eq_iff j k).0 e in rw e (a, rw (← p) h.1, h.2)
    | inr e ↦ rw e (
      h.0,
      rw (lookup-insert k j s m) (ground (arith, text_eq_iff j k, text_eq_iff k j)),
      insert-IsKeyed m k s a h.2,
    )
  ]

  pub lookup-set_if :
      (m : States) (k j : Text) (o : Option FileState)
      → abs k ≡ some k
      → lookup j (set_if m k o) ≡ (if text_eq k j then first_some o (lookup j m) else lookup j m)
  unfolding set_if set_file_state
  lookup-set_if m k j none a = ground arith
  lookup-set_if m k j (some s) a = ground (arith, lookup-insert k j s m)

  pub advance_all_lem :
      (entries m : States) (j : Text)
      → IsKeyed entries
      → lookup j (advance_all entries m) ≡ first_some (advanced_of (lookup j entries)) (lookup j m)
  unfolding advance_all lookup advanced_of
  advance_all_lem [] m j h = refl
  advance_all_lem ((k, s) ∷ entries) m j h =
      rw
        (
          advance_all_lem entries (set_if m k (advanced s)) j h.2,
          lookup-set_if m k j (advanced s) h.0,
        )
        (elim (Bool-cases (text_eq k j)) [
          | inl e ↦
              let same = (text_eq_iff k j).0 e in
              let none_left : lookup j entries ≡ none = rw same at h.1 in rw (e, none_left) refl
          | inr e ↦ rw e refl
        ])
