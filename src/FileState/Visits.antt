-- ===== src/FileState/Visits.antt =====
-- What the visits of the listened directories in
-- internal/mod/rule/file_state_handler/file_state_handler.go keep of the state of one file:
-- anything that a visit of a listened file keeps, also where a walk fails and is taken back.
use co_scout.Prelude.{
  ℕ, ◌≡◌, refl, ap, ◌∙◌, sym, subst, Bool, true, false, List, [], ◌∷◌, Option, none, some,
  if◌then◌else◌, Text, lookup, Bool-cases, Option-cases, inl, inr,
}
use co_scout.Prelude.Int.{ℤ}
use co_scout.FileState.{FileState, States, FileInfo, Handler, get_file_state}
use co_scout.FileState.Process.{process_listen_file, listened, store}
use co_scout.FileState.Stages.{IsKeyed, first_some}
use co_scout.FileState.Keys.{Absolute, leads_to, set_file_state-IsKeyed, lookup-process_listen_file}
use co_scout.FileState.Rollback.{
  Checkpoints, Visit, passes_over, stops_walk, works, Walked, completed, stopped, failed, Local,
  checkpoint_file_state, walk_all, after_walk, walk_directory, walk_directory_failed,
}
use co_scout.FileState.Update.{
  DirEntry, FileSystem, is_directory, each_entry, list_directory, info_of, update_directory,
  update_directories, listens,
}
use co_scout.FileState.Outcome.{listens-Leaves, Leaves-Local}
use co_scout.FileState.Keyed.{restore-IsKeyed}

module _ (abs : Text → Option Text) (handlers : List Handler) (clean : Absolute abs handlers) where
  -- The states are keyed, and something holds of the state of the file.
  module _ (p : Text) (Q : Option FileState → Type 0)
      (kept : (q : Text) (info : FileInfo) (now : ℤ × ℕ) (hours : ℕ) (o : Option FileState)
        → Q o
        → Q (first_some (listened abs handlers q info now hours o) o)) where
    abbrev pub Inv : States → Type 0
    Inv m = IsKeyed abs m × Q (lookup p m)

    process_listen_file-Inv :
        (m : States) (q : Text) (info : FileInfo) (now : ℤ × ℕ) (hours : ℕ)
        → Inv m
        → Inv (process_listen_file abs handlers m q info now hours)
    unfolding process_listen_file store
    process_listen_file-Inv m q info now hours (k, h) = (keyed, value)
      where
        keyed : IsKeyed abs (process_listen_file abs handlers m q info now hours)
        keyed =
            elim (Option-cases (listened abs handlers q info now hours (get_file_state abs m q))) [
              | inl e ↦ rw (e, store) k
              | inr (s, e) ↦ rw (e, store) (set_file_state-IsKeyed abs handlers clean m q s k)
            ]

        value : Q (lookup p (process_listen_file abs handlers m q info now hours))
        value =
            rw (lookup-process_listen_file abs handlers m q p info now hours)
              (elim (Bool-cases (leads_to abs handlers q p)) [
                | inl e ↦ rw e (kept q info now hours (lookup p m) h)
                | inr e ↦ rw e h
              ])

    abbrev Good : Visit → Type 0
    Good passes_over = Unit {0}
    Good stops_walk = Unit {0}
    Good (works f) = (m : States) → Inv m → Inv (f m)

    listens-Good :
        (fs : FileSystem) (now : ℤ × ℕ) (hours : ℕ) (q : Text) (info : Option FileInfo)
        → Good (listens abs fs handlers now hours q info)
    unfolding listens
    listens-Good fs now hours q none = elim (Bool-cases (fs.readable q)) [
      | inl e ↦ rw e tt
      | inr e ↦ rw e tt
    ]
    listens-Good fs now hours q (some i) = elim (Bool-cases (fs.readable q)) [
      | inl e ↦ rw e (λ m h. process_listen_file-Inv m q i now hours h)
      | inr e ↦ rw e tt
    ]

    walk_all-Inv :
        (visit : Text → Visit) (paths : List Text) (m : States) (cps : Checkpoints)
        → ((q : Text) → Good (visit q))
        → Inv m
        → Inv (walk_all abs visit paths m cps).0
    unfolding walk_all
    walk_all-Inv visit [] m cps good h = h
    walk_all-Inv visit (q ∷ qs) m cps good h =
        go (λ m' cps' h'. walk_all-Inv visit qs m' cps' good h') (visit q) refl
      where
        go :
            ((m' : States) (cps' : Checkpoints) → Inv m' → Inv (walk_all abs visit qs m' cps').0)
            → (v : Visit) → visit q ≡ v
            → Inv (walk_all abs visit (q ∷ qs) m cps).0
        go ih passes_over e = rw (walk_all, e) (ih m cps h)
        go ih stops_walk e = rw (walk_all, e) h
        go ih (works f) e =
            rw (walk_all, e)
              (ih (f m) (checkpoint_file_state abs m cps q) (subst Good e (good q) m h))

    -- A walk that fails is taken back.
    walk_directory-Inv :
        (visit : Text → Visit) (w : List Text × Bool) (m : States)
        → Local abs visit
        → ((q : Text) → Good (visit q))
        → Inv m
        → Inv (walk_directory abs visit w m).0
    unfolding walk_directory after_walk
    walk_directory-Inv visit (paths, fails) m local good h =
        go (walk_all abs visit paths m []).2 fails refl
      where
        walked : Inv (walk_all abs visit paths m []).0
        walked = walk_all-Inv visit paths m [] good h

        after : Bool → Bool → States × Walked
        after halted broken =
            after_walk abs
              ((walk_all abs visit paths m []).0, (walk_all abs visit paths m []).1, halted) broken

        go :
            (halted broken : Bool)
            → (walk_all abs visit paths m []).2 ≡ halted
            → Inv (after halted broken).0
        go true broken e = walked
        go false true e =
            let ends : (after (walk_all abs visit paths m []).2 true).1 ≡ failed =
              ap (λ b. (after b true).1) e in
            let back : lookup p (after (walk_all abs visit paths m []).2 true).0 ≡ lookup p m =
              walk_directory_failed abs visit (paths, true) m p clean local ends in
            (
              restore-IsKeyed abs handlers clean (walk_all abs visit paths m []).0
                  (walk_all abs visit paths m []).1 walked.0,
              subst Q (sym back ∙ ap (λ b. lookup p (after b true).0) e) h.1,
            )
        go false false e = walked

    each_entry-Inv :
        (fs : FileSystem) (visit : Text → Option FileInfo → Visit) (es : List DirEntry) (m : States)
        → ((q : Text) (info : Option FileInfo) → Good (visit q info))
        → Inv m
        → Inv (each_entry abs fs visit es m)
    unfolding each_entry
    each_entry-Inv fs visit [] m good h = h
    each_entry-Inv fs visit (e ∷ es) m good h =
        each_entry-Inv fs visit es _ good (one e.is_dir (visit e.path e.info) (good e.path e.info))
      where
        one :
            (dir : Bool) (v : Visit)
            → Good v
            → Inv (if dir then m else (elim v [ passes_over ↦ m | stops_walk ↦ m | works f ↦ f m ]))
        one true v g = h
        one false passes_over g = h
        one false stops_walk g = h
        one false (works f) g = g m h

    list_directory-Inv :
        (fs : FileSystem) (visit : Text → Option FileInfo → Visit) (o : Option (List DirEntry))
        (m : States)
        → ((q : Text) (info : Option FileInfo) → Good (visit q info))
        → Inv m
        → Inv (list_directory abs fs visit o m).0
    unfolding list_directory
    list_directory-Inv fs visit none m good h = h
    list_directory-Inv fs visit (some es) m good h = each_entry-Inv fs visit es m good h

    update_directory-Inv :
        (fs : FileSystem) (recursive : Bool) (now : ℤ × ℕ) (hours : ℕ) (dir : Text) (m : States)
        → Inv m
        → Inv (update_directory abs fs recursive (listens abs fs handlers now hours) dir m).0
    unfolding update_directory
    update_directory-Inv fs recursive now hours dir m h =
        elim (Bool-cases (is_directory abs fs (fs.stat dir))) [
          | inr e ↦ rw e h
          | inl e ↦ elim (Bool-cases recursive) [
            | inl r ↦
                rw (e, r)
                  (walk_directory-Inv visit (fs.walk dir) m
                    (Leaves-Local abs fs handlers visit (λ q j u.
                      listens-Leaves abs fs handlers now hours q j (info_of abs fs (fs.stat q)) u))
                    (λ q. listens-Good fs now hours q (info_of abs fs (fs.stat q))) h)
            | inr r ↦
                rw (e, r)
                  (list_directory-Inv fs (listens abs fs handlers now hours) (fs.read_dir dir) m
                    (listens-Good fs now hours) h)
          ]
        ]
      where
        visit : Text → Visit
        visit q = listens abs fs handlers now hours q (info_of abs fs (fs.stat q))

    pub update_directories-Inv :
        (fs : FileSystem) (recursive : Bool) (now : ℤ × ℕ) (hours : ℕ) (dirs : List Text)
        (m : States)
        → Inv m
        → Inv (update_directories abs fs recursive (listens abs fs handlers now hours) dirs m).0
    unfolding update_directories
    update_directories-Inv fs recursive now hours [] m h = h
    update_directories-Inv fs recursive now hours (dir ∷ dirs) m h =
        let one = update_directory-Inv fs recursive now hours dir m h in
        let r = update_directory abs fs recursive (listens abs fs handlers now hours) dir m in
        let rest = update_directories-Inv fs recursive now hours dirs r.0 one in
        pick r.1 (update_directories abs fs recursive (listens abs fs handlers now hours) dirs r.0)
          r.0 one rest
      where
        pick :
            (w : Walked) (later : States × Bool) (m' : States)
            → Inv m'
            → Inv later.0
            → Inv
                (elim w as (λ x. States × Bool) [
                  | completed ↦ later
                  | stopped ↦ (m', true)
                  | failed ↦ later
                ]).0
        pick completed later m' a b = b
        pick stopped later m' a b = a
        pick failed later m' a b = b
