-- ===== src/RecordCache/Updates.antt =====
-- Updates of one record cache by many goroutines (internal/model/record_cache.go).
use co_scout.Prelude.{
  ◌≡◌, ◌≢◌, refl, sym, ap, ◌∙◌, Bool, true, false, ◌&&◌, ◌||◌, not, All, List, [], ◌∷◌, Option,
  none, some, if◌then◌else◌, Text, text_eq, text_eq_iff, text_eq_refl, lookup, insert, delete,
  lookup-insert, lookup-delete, arith, Option-cases, Bool-cases, inl, inr,
}
use co_scout.RecordCache.{
  RecordCache, Disk, WriteStep, make_directory, marshal, create_temp, write_temp, chmod_temp,
  close_temp, rename_temp, Host, normalize_record_cache_path, load_record_cache_file, load_content,
  write_record_cache_file, update_record_cache, update_found, is_empty, save, get_record_cache_path,
  reload, reloaded, record_cache_path_locked, copy_from,
}

-- One call of UpdateRecordCache: which of its calls fail, its temporary file and its change.
pub record Update : Type 0 where
  pub fails : WriteStep → Bool
  pub temp : Text
  pub change : RecordCache → Option RecordCache

-- No call of a write fails.
abbrev pub succeeds : (WriteStep → Bool) → Bool
succeeds fails = not (
    fails make_directory
    || fails marshal
    || fails create_temp
    || fails write_temp
    || (fails chmod_temp || fails close_temp || fails rename_temp))

module _ (path : Text) where
  -- The update as a change of what is loaded.
  unfoldable pub apply : Update → Option RecordCache → Option RecordCache
  apply u none = none
  apply u (some rc) = elim (u.change rc) [
    | none ↦ some rc
    | some rc' ↦ some (if succeeds u.fails then record rc' { cache_path = path } else rc)
  ]

  unfoldable pub apply_all : List Update → Option RecordCache → Option RecordCache
  apply_all [] o = o
  apply_all (u ∷ us) o = apply_all us (apply u o)

  -- The temporary names are not those of files.
  abbrev pub IsFresh : Disk → Update → Type 0
  IsFresh disk u = (u.temp ≢ path) × (lookup u.temp disk ≡ none)

module _ (host : Host) (path : Text) where
  -- What the file has: nothing if it cannot be read.
  abbrev pub at_path : Disk → Option RecordCache
  at_path disk = load_record_cache_file host path disk

  unfoldable pub run : List Update → Disk → Disk
  run [] disk = disk
  run (u ∷ us) disk = run us (update_record_cache host u.fails u.temp path u.change disk).0

module _ (host : Host) (path : Text) (normal : normalize_record_cache_path host path ≡ path)
    (filled : is_empty path ≡ false) (cleaned : host.clean path ≡ path) where
  load-lookup : (disk : Disk) → at_path host path disk ≡ load_content host path (lookup path disk)
  unfolding load_record_cache_file
  load-lookup disk = rw (load_record_cache_file, normal, filled) refl

  -- A write changes no file but that of the record cache, and that only if none of its calls fails;
  -- no temporary file is left.
  pub write-lookup :
      (fails : WriteStep → Bool) (temp k : Text) (rc : RecordCache) (disk : Disk)
      → temp ≢ path
      → lookup temp disk ≡ none
      → let r = write_record_cache_file host fails temp path rc disk in
        (r.1 ≡ succeeds fails)
        × (lookup k r.0 ≡ (
            if r.1 && text_eq path k
            then some (some (record rc { cache_path = [] }))
            else lookup k disk))
  unfolding write_record_cache_file
  write-lookup fails temp k rc disk other new =
      rw (normal, filled)
        (
          ground arith,
          ground (
            arith,
            lookup-delete temp k (insert temp none disk),
            lookup-insert temp k none disk,
            lookup-delete temp k (insert temp (some (record rc { cache_path = [] })) disk),
            lookup-insert temp k (some (record rc { cache_path = [] })) disk,
            lookup-delete temp k (
                insert path (some (record rc { cache_path = [] }))
                  (delete temp (insert temp (some (record rc { cache_path = [] })) disk))),
            lookup-insert path k (some (record rc { cache_path = [] }))
                (delete temp (insert temp (some (record rc { cache_path = [] })) disk)),
            text_eq_iff temp k,
            text_eq_iff path k,
          ),
        )

  update-found :
      (u : Update) (disk : Disk)
      → update_record_cache host u.fails u.temp path u.change disk
        ≡ update_found host u.fails u.temp path u.change disk (at_path host path disk)
  unfolding update_record_cache
  update-found u disk = rw (update_record_cache, normal, filled) refl

  written-lookup :
      (u : Update) (k : Text) (rc rc' : RecordCache) (disk : Disk)
      → IsFresh path disk u
      → at_path host path disk ≡ some rc
      → let disk' = (write_record_cache_file host u.fails u.temp path rc' disk).0 in
        (at_path host path disk'
          ≡ some (if succeeds u.fails then record rc' { cache_path = path } else rc))
        × (k ≢ path → lookup k disk' ≡ lookup k disk)
  unfolding load_content
  written-lookup u k rc rc' disk fresh e =
      let here = write-lookup u.fails u.temp path rc' disk fresh.0 fresh.1 in
      let there = write-lookup u.fails u.temp k rc' disk fresh.0 fresh.1 in
      let disk' = (write_record_cache_file host u.fails u.temp path rc' disk).0 in
      elim (Bool-cases (succeeds u.fails)) [
        | inl s ↦ (
          load-lookup disk'
              ∙ ap (load_content host path) here.1
              ∙ rw (here.0, s, text_eq_refl path, cleaned) refl,
          λ ne. ground (arith, there, text_eq_iff path k),
        )
        | inr s ↦ (
          load-lookup disk'
              ∙ ap (load_content host path) here.1
              ∙ rw (here.0, s) (sym (load-lookup disk) ∙ e),
          λ ne. ground (arith, there, s),
        )
      ]

  -- What one update does to the file, and that it leaves the others alone.
  found-lookup :
      (u : Update) (k : Text) (disk : Disk) (o : Option RecordCache)
      → IsFresh path disk u
      → at_path host path disk ≡ o
      → let disk' = (update_found host u.fails u.temp path u.change disk o).0 in
        (at_path host path disk' ≡ apply path u o) × (k ≢ path → lookup k disk' ≡ lookup k disk)
  unfolding update_found apply
  found-lookup u k disk none fresh e = (e, λ ne. refl)
  found-lookup u k disk (some rc) fresh e = elim (Option-cases (u.change rc)) [
    | inl fails ↦ rw (update_found, apply, fails) (e, λ ne. refl)
    | inr (rc', changes) ↦
        rw (update_found, apply, changes) (written-lookup u k rc rc' disk fresh e)
  ]

  update-lookup :
      (u : Update) (k : Text) (disk : Disk)
      → IsFresh path disk u
      → let disk' = (update_record_cache host u.fails u.temp path u.change disk).0 in
        (at_path host path disk' ≡ apply path u (at_path host path disk))
        × (k ≢ path → lookup k disk' ≡ lookup k disk)
  update-lookup u k disk fresh =
      rw (update-found u disk) (found-lookup u k disk (at_path host path disk) fresh refl)

  IsFresh-update :
      (u : Update) (us : List Update) (disk : Disk)
      → IsFresh path disk u
      → All (IsFresh path disk) us
      → All (IsFresh path (update_record_cache host u.fails u.temp path u.change disk).0) us
  IsFresh-update u [] disk f h = tt
  IsFresh-update u (v ∷ vs) disk f h =
      ((h.0.0, (update-lookup u v.temp disk f).1 h.0.0 ∙ h.0.1), IsFresh-update u vs disk f h.1)

  -- Updates of one record cache, in whatever order its mutex lets them through, add up: what the
  -- file has in the end is what it had at the start with every change made in turn, but those whose
  -- function or whose write fails. No other file is touched.
  pub run-load :
      (us : List Update) (k : Text) (disk : Disk)
      → All (IsFresh path disk) us
      → (at_path host path (run host path us disk) ≡ apply_all path us (at_path host path disk))
        × (k ≢ path → lookup k (run host path us disk) ≡ lookup k disk)
  unfolding run apply_all
  run-load [] k disk h = (refl, λ ne. refl)
  run-load (u ∷ us) k disk h =
      let next = (update_record_cache host u.fails u.temp path u.change disk).0 in
      let rest = run-load us k next (IsFresh-update u us disk h.0 h.1) in
      let one = update-lookup u k disk h.0 in
      (rest.0 ∙ ap (apply_all path us) one.0, λ ne. rest.1 ne ∙ one.1 ne)

  locked_path :
      (rc : RecordCache)
      → rc.cache_path ≡ path
      → (record_cache_path_locked host rc ≡ (rc, path))
        × (get_record_cache_path host rc ≡ (rc, path))
  unfolding record_cache_path_locked get_record_cache_path
  locked_path rc e = ground arith

  reload-at_path :
      (other : RecordCache) (disk : Disk)
      → other.cache_path ≡ path
      → reload host other disk ≡ reloaded host other (at_path host path disk)
  unfolding reload
  reload-at_path other disk e =
      ap (λ (r : RecordCache × Text). reloaded host r.0 (load_record_cache_file host r.1 disk))
        (locked_path other e).0

  save-write :
      (fails : WriteStep → Bool) (temp : Text) (rc : RecordCache) (disk : Disk)
      → rc.cache_path ≡ path
      → let w = write_record_cache_file host fails temp path rc disk in
        save host fails temp rc disk ≡ (rc, w.0, w.1)
  unfolding save
  save-write fails temp rc disk e =
      ap
        (λ (r : RecordCache × Text).
          let w = write_record_cache_file host fails temp r.1 r.0 disk in (r.0, w.0, w.1))
        (locked_path rc e).1

  pub load-written :
      (fails : WriteStep → Bool) (temp : Text) (rc : RecordCache) (disk : Disk)
      → temp ≢ path
      → lookup temp disk ≡ none
      → rc.cache_path ≡ path
      → at_path host path (write_record_cache_file host fails temp path rc disk).0
        ≡ (if succeeds fails then some rc else at_path host path disk)
  unfolding load_content
  load-written fails temp rc disk ne new e =
      let here = write-lookup fails temp path rc disk ne new in
      let disk' = (write_record_cache_file host fails temp path rc disk).0 in
      let opened = load-lookup disk' ∙ ap (load_content host path) here.1 in
      elim (Bool-cases (succeeds fails)) [
        | inl s ↦
            opened
            ∙ rw (here.0, s, text_eq_refl path, cleaned)
                (ap (λ p. some (record rc { cache_path = p })) (sym e))
        | inr s ↦ opened ∙ rw (here.0, s) (sym (load-lookup disk))
      ]

  -- Saving a cache gives what every handle on its file reads again, or leaves the file as it was.
  pub save-reload :
      (fails : WriteStep → Bool) (temp : Text) (rc other : RecordCache) (disk : Disk)
      → temp ≢ path
      → lookup temp disk ≡ none
      → rc.cache_path ≡ path
      → other.cache_path ≡ path
      → let r = save host fails temp rc disk in
        (r.2 ≡ succeeds fails)
        × (reload host other r.1 ≡ (if r.2 then (rc, true) else reload host other disk))
  unfolding reloaded copy_from
  save-reload fails temp rc other disk ne new e e' =
      let here = write-lookup fails temp path rc disk ne new in
      let disk' = (write_record_cache_file host fails temp path rc disk).0 in
      let read = load-written fails temp rc disk ne new e in
      rw
        (
          save-write fails temp rc disk e,
          reload-at_path other disk' e',
          reload-at_path other disk e',
        )
        (
          here.0,
          elim (Bool-cases (succeeds fails)) [
            | inl s ↦ rw (read, here.0, s) refl
            | inr s ↦ rw (read, here.0, s) refl
          ],
        )
