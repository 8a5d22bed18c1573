-- ===== src/FileState/Outcome.antt =====
-- What the two updates leave behind when a directory cannot be read to its end
-- (internal/mod/rule/file_state_handler/file_state_handler.go).
use co_scout.Prelude.{
  ℕ, ◌≡◌, ◌≢◌, refl, ap, ◌∙◌, sym, subst, Bool, true, false, List, Option, none, some, Text, lookup,
  Bool-cases, Option-cases, inl, inr,
}
use co_scout.Prelude.Int.{ℤ}
use co_scout.FileState.{FileState, States, FileInfo, Handler}
use co_scout.FileState.Process.{process_listen_file, process_collect_file, store}
use co_scout.FileState.Keys.{lookup-store, elsewhere}
use co_scout.FileState.Rollback.{
  Visit, passes_over, stops_walk, works, failed, Local, Absolute, walk_directory_failed,
}
use co_scout.FileState.Update.{
  DirEntry, FileSystem, matches_whitelist, is_directory, info_of, list_directory, update_directory,
  listens, collects, collects_at,
}

module _ (abs : Text → Option Text) (fs : FileSystem) (handlers : List Handler) where
  store-elsewhere :
      (m : States) (q j : Text) (o : Option FileState)
      → abs q ≢ some j
      → lookup j (store abs handlers m q o) ≡ lookup j m
  store-elsewhere m q j o u =
      lookup-store abs handlers m q j o ∙ rw (elsewhere abs handlers q j u) refl

  abbrev Leaves : Text → Visit → Type 0
  Leaves j passes_over = Unit {0}
  Leaves j stops_walk = Unit {0}
  Leaves j (works f) = (m : States) → lookup j (f m) ≡ lookup j m

  pub listens-Leaves :
      (now : ℤ × ℕ) (hours : ℕ) (p j : Text) (info : Option FileInfo)
      → abs p ≢ some j
      → Leaves j (listens abs fs handlers now hours p info)
  unfolding listens process_listen_file
  listens-Leaves now hours p j none u = elim (Bool-cases (fs.readable p)) [
    | inl e ↦ rw e tt
    | inr e ↦ rw e tt
  ]
  listens-Leaves now hours p j (some i) u = elim (Bool-cases (fs.readable p)) [
    | inl e ↦ rw e (λ m. store-elsewhere m p j _ u)
    | inr e ↦ rw e tt
  ]

  collects-Leaves :
      (birth_times : Text → Option (ℤ × ℤ)) (path_match : Text → Text → Option Bool)
      (recursive : Bool) (whitelist : List Text) (p j : Text) (info : Option FileInfo)
      → abs p ≢ some j
      → Leaves j (collects abs fs handlers birth_times path_match recursive whitelist p info)
  unfolding collects process_collect_file
  collects-Leaves birth_times path_match recursive whitelist p j info u =
      elim (Bool-cases (matches_whitelist path_match whitelist p)) [
        | inr e ↦ rw e tt
        | inl e ↦ elim (Bool-cases (fs.readable p)) [
          | inr r ↦ elim (Bool-cases recursive) [
            | inl b ↦ rw (e, r, b) tt
            | inr b ↦ rw (e, r, b) tt
          ]
          | inl r ↦ rw (e, r) (done info)
        ]
      ]
    where
      done :
          (o : Option FileInfo)
          → Leaves j (elim o [
            | none ↦ passes_over
            | some i ↦ works (λ m. process_collect_file abs handlers birth_times m p i)
          ])
      done none = tt
      done (some i) = λ m. store-elsewhere m p j _ u

  pub Leaves-Local :
      (visit : Text → Visit)
      → ((p j : Text) → abs p ≢ some j → Leaves j (visit p))
      → Local abs visit
  Leaves-Local visit leaves p j f m e u = subst (Leaves j) e (leaves p j u) m

  list_directory_lem :
      (visit : Text → Option FileInfo → Visit) (entries : Option (List DirEntry)) (m : States)
      → (list_directory abs fs visit entries m).1 ≡ failed
      → (list_directory abs fs visit entries m).0 ≡ m
  unfolding list_directory
  list_directory_lem visit none m h = refl
  list_directory_lem visit (some es) m h = cc

  update_directory_lem :
      (recursive : Bool) (visit : Text → Option FileInfo → Visit) (dir j : Text) (m : States)
      → Absolute abs
      → ((p i : Text) (info : Option FileInfo) → abs p ≢ some i → Leaves i (visit p info))
      → (update_directory abs fs recursive visit dir m).1 ≡ failed
      → lookup j (update_directory abs fs recursive visit dir m).0 ≡ lookup j m
  unfolding update_directory
  update_directory_lem recursive visit dir j m clean leaves h =
      elim (Bool-cases (is_directory abs fs (fs.stat dir))) [
        | inr e ↦ rw e refl
        | inl e ↦ elim (Bool-cases recursive) [
          | inl r ↦
              rw (e, r)
                (walk_directory_failed abs (λ p. visit p (info_of abs fs (fs.stat p))) (fs.walk dir)
                  m j clean
                  (Leaves-Local (λ p. visit p (info_of abs fs (fs.stat p)))
                    (λ p i u. leaves p i (info_of abs fs (fs.stat p)) u))
                  (rw (e, r) at h))
          | inr r ↦
              rw (e, r)
                (ap (lookup j) (list_directory_lem visit (fs.read_dir dir) m (rw (e, r) at h)))
        ]
      ]

  collects_at-Leaves :
      (birth_times : Text → Option (ℤ × ℤ)) (path_match : Text → Text → Option Bool)
      (recursive : Bool) (whitelist : List Text) (p j : Text) (info : Option FileInfo)
      → Absolute abs
      → abs p ≢ some j
      → Leaves j (collects_at abs fs handlers birth_times path_match recursive whitelist p info)
  unfolding collects_at
  collects_at-Leaves birth_times path_match true whitelist p j info clean u =
      collects-Leaves birth_times path_match true whitelist p j info u
  collects_at-Leaves birth_times path_match false whitelist p j info clean u =
      elim (Option-cases (abs p)) [
        | inl e ↦ rw e tt
        | inr (a, e) ↦ rw e (
            collects-Leaves birth_times path_match false whitelist a j info
              (λ same. u (e ∙ sym (clean p a e) ∙ same)))
      ]

  -- The callback of either update.
  unfoldable pub visits :
      Bool
      → (Text → Option (ℤ × ℤ))
      → (Text → Text → Option Bool)
      → List Text
      → ℤ × ℕ
      → ℕ
      → Bool
      → Text
      → Option FileInfo
      → Visit
  visits true birth_times path_match whitelist now hours recursive =
      collects_at abs fs handlers birth_times path_match recursive whitelist
  visits false birth_times path_match whitelist now hours recursive =
      listens abs fs handlers now hours

  -- A directory that is none, that cannot be listed or whose walk fails leaves the state of every
  -- file as it was, in the update of the listened directories and in that of the collected ones,
  -- walked or listed, whatever files its visits had brought in or changed before.
  pub update_directory-failed :
      (collecting : Bool) (birth_times : Text → Option (ℤ × ℤ))
      (path_match : Text → Text → Option Bool) (whitelist : List Text) (now : ℤ × ℕ) (hours : ℕ)
      (recursive : Bool) (dir j : Text) (m : States)
      → Absolute abs
      → (update_directory abs fs recursive
          (visits collecting birth_times path_match whitelist now hours recursive)
          dir
          m).1
        ≡ failed
      → lookup j
          (update_directory abs fs recursive
            (visits collecting birth_times path_match whitelist now hours recursive)
            dir
            m).0
        ≡ lookup j m
  unfolding visits
  update_directory-failed true birth_times path_match whitelist now hours recursive dir j m clean
        h =
      update_directory_lem recursive _ dir j m clean
        (λ p i info u.
          collects_at-Leaves birth_times path_match recursive whitelist p i info clean u)
        h
  update_directory-failed false birth_times path_match whitelist now hours recursive dir j m clean
        h =
      update_directory_lem recursive _ dir j m clean
        (λ p i info u. listens-Leaves now hours p i info u) h
