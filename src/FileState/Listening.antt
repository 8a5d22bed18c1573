-- ===== src/FileState/Listening.antt =====
-- The states of listened files over any history of scans, rounds and marks
-- (internal/mod/rule/file_state_handler/file_state_handler.go).
use co_scout.Prelude.{
  ℕ, suc, ◌+◌, ◌≤◌, ◌≡◌, ◌≢◌, refl, ◌∙◌, sym, Bool, true, false, List, [], ◌∷◌, Option, none, some,
  Text, lookup, arith, Bool-cases, Option-cases, inl, inr, All,
}
use co_scout.Prelude.Int.{ℤ}
use co_scout.FileState.{
  unprocessed, seen_once, ready_to_process, processed, FileState, FileInfo, Handler,
  FileStateHandler, set_file_state, get_file_state, is_done, save_state,
}
use co_scout.FileState.Process.{listened}
use co_scout.FileState.Cleanup.{difference, under, is_gone}
use co_scout.FileState.Update.{FileSystem, Conf, readable_dirs, update_listen_dirs}
use co_scout.FileState.Scanning.{update_listen_dirs-Inv}
use co_scout.FileState.Stages.{
  IsKeyed, advanced, advanced_of, first_some, advance_all, advance_all_lem,
  update_files_process_state, mark_processed_file,
}
use co_scout.FileState.Keys.{
  Absolute, leads_to, lookup-set_file_state, get_file_state_led, set_file_state-IsKeyed,
  advance_all-IsKeyed, elsewhere,
}

-- What the rule module does with the handler of the listened files.
pub data Operation : Type 0 where
  scans : FileSystem → Bool → ℤ × ℕ → Conf → Operation
  advances : Bool → Operation
  marks : Bool → Text → Operation

-- How far a file is on its way; a file without a state has not begun.
unfoldable pub stage : Option FileState → ℕ
stage none = 0
stage (some s) = elim s.process_state [
  | unprocessed ↦ 0
  | seen_once ↦ 1
  | ready_to_process ↦ 2
  | processed ↦ 3
]

unfoldable pub rounds : List Operation → ℕ
rounds [] = 0
rounds (advances writes ∷ ops) = suc (rounds ops)
rounds (scans fs writes now conf ∷ ops) = rounds ops
rounds (marks writes p ∷ ops) = rounds ops

-- Absolute abs handlers paths are clean: `Abs` leaves them alone.
module _ (abs : Text → Option Text) (handlers : List Handler) where
  unfoldable pub step : FileStateHandler → Operation → FileStateHandler
  step f (scans fs writes now conf) = (update_listen_dirs abs fs handlers writes now conf f).0
  step f (advances writes) = (update_files_process_state abs writes f).0
  step f (marks writes p) = (mark_processed_file abs writes f p).0

  unfoldable pub run : FileStateHandler → List Operation → FileStateHandler
  unfolding step
  run f [] = f
  run f (op ∷ ops) = run (step f op) ops

  -- No mark of the file at the path.
  abbrev pub Unmarked : Text → Operation → Type 0
  Unmarked p (scans fs writes now conf) = Unit {0}
  Unmarked p (advances writes) = Unit {0}
  Unmarked p (marks writes q) = abs q ≢ some p

  -- No scan of the history deletes the state of the file: none finds it gone, or gives up a
  -- directory that is, as a text, a prefix of its path.
  abbrev pub Spared : Text → FileStateHandler → List Operation → Type 0
  Spared p f [] = Unit {0}
  Spared p f (scans fs writes now conf ∷ ops) =
      (under abs (difference f.listen_dirs (readable_dirs fs.readable conf.listen_dirs)) p ≡ false)
      × (is_gone abs fs.stat (fs.stat p) ≡ false)
      × Spared p (step f (scans fs writes now conf)) ops
  Spared p f (advances writes ∷ ops) = Spared p (step f (advances writes)) ops
  Spared p f (marks writes q ∷ ops) = Spared p (step f (marks writes q)) ops

  save-state : (writes : Bool) (f : FileStateHandler) → (save_state writes f).0.state ≡ f.state
  unfolding save_state
  save-state true f = refl
  save-state false f = refl

  mark_none :
      (writes : Bool) (f : FileStateHandler) (p : Text)
      → get_file_state abs f.state p ≡ none
      → (mark_processed_file abs writes f p).0.state ≡ f.state
  unfolding mark_processed_file
  mark_none writes f p e = rw (mark_processed_file, e) refl

  mark_some :
      (writes : Bool) (f : FileStateHandler) (p : Text) (s : FileState)
      → get_file_state abs f.state p ≡ some s
      → (mark_processed_file abs writes f p).0.state
        ≡ set_file_state abs f.state p (record s { process_state = processed })
  unfolding mark_processed_file
  mark_some writes f p s e =
      rw (mark_processed_file, e)
        (save-state writes (record f {
          state = set_file_state abs f.state p (record s { process_state = processed });
        }))

  step-IsKeyed :
      Absolute abs handlers
      → (f : FileStateHandler) (op : Operation) → IsKeyed abs f.state
      → IsKeyed abs (step f op).state
  unfolding step update_files_process_state mark_processed_file
  step-IsKeyed clean f (scans fs writes now conf) k =
      (update_listen_dirs-Inv abs handlers clean [] (λ o. Unit {0}) (λ q i t h o u. u) fs writes now
        conf f (inl tt) (k, tt)).0
  step-IsKeyed clean f (advances writes) k =
      rw (save-state writes (record f { state = advance_all abs f.state f.state }))
        (advance_all-IsKeyed abs handlers clean f.state f.state k)
  step-IsKeyed clean f (marks writes p) k = elim (Option-cases (get_file_state abs f.state p)) [
    | inl e ↦ rw (mark_none writes f p e) k
    | inr (s, e) ↦ rw (mark_some writes f p s e) (
        set_file_state-IsKeyed abs handlers clean f.state p (record s { process_state = processed })
          k)
  ]

  done-advanced : (o : Option FileState) → is_done o ≡ true → advanced_of o ≡ none
  unfolding is_done advanced advanced_of
  done-advanced none h = cc
  done-advanced (some s) h = ground arith

  done-listened :
      (p : Text) (info : FileInfo) (now : ℤ × ℕ) (hours : ℕ) (o : Option FileState)
      → is_done o ≡ true
      → listened abs handlers p info now hours o ≡ none
  unfolding listened
  done-listened p info now hours o h = rw h refl

  done-marked :
      (s : FileState) → is_done (some s) ≡ true → record s { process_state = processed } ≡ s
  unfolding is_done
  done-marked s h = ground arith

  -- A file that is done keeps its state in every step that spares it.
  step-done :
      Absolute abs handlers
      → (f : FileStateHandler) (op : Operation) (p : Text) → IsKeyed abs f.state
      → Spared p f (op ∷ [])
      → is_done (lookup p f.state) ≡ true
      → lookup p (step f op).state ≡ lookup p f.state
  unfolding step update_files_process_state
  step-done clean f (scans fs writes now conf) p k spared h =
      (update_listen_dirs-Inv abs handlers clean p (λ o. o ≡ lookup p f.state)
        (λ q info t hours o same. rw (done-listened q info t hours o (rw same h)) same) fs writes
        now conf f (inr (spared.0, spared.1)) (k, refl)).1
  step-done clean f (advances writes) p k spared h =
      rw
        (
          save-state writes (record f { state = advance_all abs f.state f.state }),
          advance_all_lem abs f.state f.state p k,
          done-advanced (lookup p f.state) h,
        )
        refl
  step-done clean f (marks writes q) p k spared h =
      elim (Option-cases (get_file_state abs f.state q)) [
        | inl e ↦ rw (mark_none writes f q e) refl
        | inr (s, e) ↦
            rw
              (
                mark_some writes f q s e,
                lookup-set_file_state abs handlers f.state q p
                    (record s { process_state = processed }),
              )
              (elim (Bool-cases (leads_to abs handlers q p)) [
                | inl l ↦
                    let same : some s ≡ lookup p f.state =
                      sym e ∙ get_file_state_led abs handlers f.state q p l in
                    let done : is_done (some s) ≡ true = rw (← same) at h in
                    rw (l, done-marked s done) same
                | inr l ↦ rw l refl
              ])
      ]

  Spared-cons :
      (f : FileStateHandler) (op : Operation) (ops : List Operation) (p : Text)
      → Spared p f (op ∷ ops)
      → Spared p f (op ∷ []) × Spared p (step f op) ops
  Spared-cons f (scans fs writes now conf) ops p h = ((h.0, h.1, tt), h.2)
  Spared-cons f (advances writes) ops p h = (tt, h)
  Spared-cons f (marks writes q) ops p h = (tt, h)

  pub run-IsKeyed :
      Absolute abs handlers
      → (f : FileStateHandler) (ops : List Operation) → IsKeyed abs f.state
      → IsKeyed abs (run f ops).state
  unfolding run
  run-IsKeyed clean f [] k = k
  run-IsKeyed clean f (op ∷ ops) k = run-IsKeyed clean (step f op) ops (step-IsKeyed clean f op k)

  -- In states that are keyed by absolute paths, which filepath.Abs leaves alone, a supported file
  -- that is marked as processed keeps its state over every further history of scans of the listened
  -- directories, rounds and marks, so it is not read a second time, however its size and its times
  -- change. That is as long as no scan finds the file gone, and none gives up a listened directory
  -- that is, as a text, a prefix of its path: such a scan deletes the state.
  pub run-done :
      Absolute abs handlers
      → (f : FileStateHandler) (ops : List Operation) (p : Text) → IsKeyed abs f.state
      → Spared p f ops
      → is_done (lookup p f.state) ≡ true
      → lookup p (run f ops).state ≡ lookup p f.state
  unfolding run
  run-done clean f [] p k spared h = refl
  run-done clean f (op ∷ ops) p k spared h =
      let parts = Spared-cons f op ops p spared in
      let same = step-done clean f op p k parts.0 h in
      run-done clean (step f op) ops p (step-IsKeyed clean f op k) parts.1 (rw same h) ∙ same

  stage-first_some :
      (o d : Option FileState) (n : ℕ) → stage o ≤ n → stage d ≤ n → stage (first_some o d) ≤ n
  stage-first_some none d n a b = b
  stage-first_some (some s) d n a b = a

  stage-advanced_of : (o : Option FileState) → stage (advanced_of o) ≤ suc (stage o)
  unfolding stage advanced_of advanced
  stage-advanced_of none = omega arith
  stage-advanced_of (some s) = ground arith

  stage-listened :
      (p : Text) (info : FileInfo) (now : ℤ × ℕ) (hours : ℕ) (o : Option FileState)
      → stage (listened abs handlers p info now hours o) ≤ stage o
  unfolding stage listened
  stage-listened p info now hours none = ground arith
  stage-listened p info now hours (some s) = ground arith

  none_le : (n : ℕ) → stage none ≤ n
  unfolding stage
  none_le n = omega arith

  step-stage :
      Absolute abs handlers
      → (f : FileStateHandler) (op : Operation) (p : Text) → IsKeyed abs f.state
      → Unmarked p op
      → stage (lookup p (step f op).state) ≤ stage (lookup p f.state) + rounds (op ∷ [])
  unfolding step rounds update_files_process_state
  step-stage clean f (scans fs writes now conf) p k u =
      let n = stage (lookup p f.state) in
      let kept =
        update_listen_dirs-Inv abs handlers clean p (λ o. stage o ≤ n)
          (λ q info t hours o le.
            stage-first_some (listened abs handlers q info t hours o) o n
              (omega (arith, stage-listened q info t hours o, le)) le)
          fs writes now conf f (inl (none_le n)) (k, omega arith) in
      omega (arith, kept.1)
  step-stage clean f (advances writes) p k u =
      rw
        (
          save-state writes (record f { state = advance_all abs f.state f.state }),
          advance_all_lem abs f.state f.state p k,
        )
        (stage-first_some (advanced_of (lookup p f.state)) (lookup p f.state) _
          (omega (arith, stage-advanced_of (lookup p f.state))) (omega arith))
  step-stage clean f (marks writes q) p k u = elim (Option-cases (get_file_state abs f.state q)) [
    | inl e ↦ rw (mark_none writes f q e) (omega arith)
    | inr (s, e) ↦
        rw
          (
            mark_some writes f q s e,
            lookup-set_file_state abs handlers f.state q p (record s { process_state = processed }),
            elsewhere abs handlers q p u,
          )
          (omega arith)
  ]

  rounds-cons :
      (op : Operation) (ops : List Operation) → rounds (op ∷ ops) ≡ rounds (op ∷ []) + rounds ops
  unfolding rounds
  rounds-cons (scans fs writes now conf) ops = omega arith
  rounds-cons (advances writes) ops = omega arith
  rounds-cons (marks writes p) ops = omega arith

  -- A file that is not marked gets on its way by one stage at most in each round, so a new one is
  -- ready to be processed after two rounds at the earliest.
  pub run-stage :
      Absolute abs handlers
      → (f : FileStateHandler) (ops : List Operation) (p : Text) → IsKeyed abs f.state
      → All (Unmarked p) ops
      → stage (lookup p (run f ops).state) ≤ stage (lookup p f.state) + rounds ops
  unfolding run
  run-stage clean f [] p k u = omega arith
  run-stage clean f (op ∷ ops) p k u = omega (
    arith,
    step-stage clean f op p k u.0,
    run-stage clean (step f op) ops p (step-IsKeyed clean f op k) u.1,
    rounds-cons op ops,
  )
