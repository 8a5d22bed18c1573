-- ===== src/Collecting/Kept.antt =====
-- No collect info is lost by handleCollectInfo of internal/mod/rule/handler.go.
use co_scout.Prelude.{
  ◌≡◌, ◌≢◌, ◌⊎◌, refl, sym, ap, ◌∙◌, inl, inr, Bool, true, false, List, [], ◌∷◌, ◌++◌, Option, none,
  some, if◌then◌else◌, Text, text_eq, codes, lookup, map, arith, Bool-cases,
}
use co_scout.Prelude.Int.{◌≤ℤ◌, ◌<ℤ◌, ltb_ℤ, ltb_ℤ→lt, ltb_ℤ→le}
use co_scout.CollectInfo.{CollectInfo, Cut}
use co_scout.FileState.{FileState, FileStateHandler}
use co_scout.FileState.Update.{Conf}
use co_scout.RecordCache as Cache
use co_scout.RecordCache.{RecordCache, Host, is_empty, normalize_record_cache_path}
use co_scout.RecordCache.Updates.{at_path, load-written, write-lookup}
use co_scout.Slave.Registry.Codes.{
  TaskResponse, task_responses_time_window_error_code, task_responses_time_window_error_code_lem,
  invalid_time_window, time_window_not_ready, reports,
}
use co_scout.TimeWindow.{validate_time_window_at}
use co_scout.Collecting.RuleFiles.{FileInfos}
use co_scout.Collecting.Handle.{
  World, System, Verdict, drops, keeps, collects, SlaveFile, SlaveAnswer, judge, judged, in_window,
  is_invalid, gathered, local_states, with_slaves, merged, request_slaves, slave_files, response_of,
  handle_collect_info, carry_out, after_save, publish, clean, new_record_cache,
}

other_code :
    (late : Bool) → text_eq (if late then time_window_not_ready else []) invalid_time_window ≡ false
unfolding text_eq
other_code true = refl
other_code false = refl

invalid-reports :
    (rs : List (Option TaskResponse))
    → text_eq (task_responses_time_window_error_code rs) invalid_time_window ≡ true
    → reports invalid_time_window rs ≡ true
invalid-reports rs h = elim (Bool-cases (reports invalid_time_window rs)) [
  | inl e ↦ e
  | inr e ↦
      let no : true ≡ false =
        sym h
        ∙ ap (λ c. text_eq c invalid_time_window)
            (task_responses_time_window_error_code_lem rs ∙ rw e refl)
        ∙ other_code (reports time_window_not_ready rs) in
      cc
]

module _ (world : World) (info : CollectInfo) where
  -- Why a collect info is removed without a record: it is skipped, it has no cut, its window ends
  -- before it starts, or a slave says so.
  abbrev pub IsHopeless : Type 0
  IsHopeless =
      (info.skip ≡ true)
      ⊎ ((info.cut ≡ none)
          ⊎ (((cut : Cut) × (info.cut ≡ some cut) × (cut.end <ℤ cut.start))
              ⊎ ((answers : List (Option SlaveAnswer)) × (world.slaves ≡ some answers)
                  × (reports invalid_time_window (map (response_of world) answers) ≡ true))))

  -- The window of the collect info has gone by.
  abbrev pub IsOver : Cut → Type 0
  IsOver cut = (info.cut ≡ some cut) × (cut.start ≤ℤ cut.end) × (cut.end ≤ℤ world.now.unix)

  abbrev IsFair : Verdict → Type 0
  IsFair drops = IsHopeless
  IsFair keeps = Unit {0}
  IsFair (collects cut all) = IsOver cut

  merged-IsFair :
      (cut : Cut) (slaves : List SlaveFile) (o : Option FileInfos)
      → IsOver cut
      → IsFair (merged world cut slaves o)
  unfolding merged
  merged-IsFair cut slaves none over = tt
  merged-IsFair cut slaves (some locals) over = over

  slaves-IsFair :
      (cut : Cut) (states : List FileState) (answers : Option (List (Option SlaveAnswer)))
      → world.slaves ≡ answers
      → IsOver cut
      → IsFair (with_slaves world cut states (request_slaves world answers))
  unfolding request_slaves slave_files with_slaves
  slaves-IsFair cut states none e over = merged-IsFair cut [] _ over
  slaves-IsFair cut states (some answers) e over =
      elim (Bool-cases (
        text_eq (task_responses_time_window_error_code (map (response_of world) answers))
          invalid_time_window)) [
            | inl bad ↦ rw bad (
                inr (inr (inr (answers, e, invalid-reports (map (response_of world) answers) bad))))
            | inr good ↦ rw good (merged-IsFair cut _ _ over)
          ]

  gathered-IsFair :
      (cut : Cut) (r : FileStateHandler × Option (List FileState))
      → IsOver cut
      → IsFair (gathered world cut r).1
  unfolding gathered
  gathered-IsFair cut (f, none) over = tt
  gathered-IsFair cut (f, some states) over = slaves-IsFair cut states world.slaves refl over

  pub valid_window :
      (cut : Cut)
      → is_invalid world (validate_time_window_at cut.start cut.end world.now)
        ≡ ltb_ℤ cut.end cut.start
  unfolding is_invalid validate_time_window_at
  valid_window cut = ground arith

  in_window-IsFair :
      (conf : Conf) (cut : Cut) (f : FileStateHandler)
      → info.cut ≡ some cut
      → IsFair (in_window world conf cut f).1
  unfolding in_window
  in_window-IsFair conf cut f e = elim (Bool-cases (ltb_ℤ cut.end cut.start)) [
    | inl bad ↦
        rw (in_window, valid_window cut, bad)
          (inr (inr (inl (cut, e, ltb_ℤ→lt cut.end cut.start bad))))
    | inr good ↦ elim (Bool-cases (ltb_ℤ world.now.unix cut.end)) [
      | inl early ↦ rw (in_window, valid_window cut, good, early) tt
      | inr late ↦
          rw (in_window, valid_window cut, good, late)
            (gathered-IsFair cut (local_states world conf cut f)
              (e, ltb_ℤ→le cut.end cut.start good, ltb_ℤ→le world.now.unix cut.end late))
    ]
  ]

  judged-IsFair :
      (conf : Conf) (cut : Option Cut) (f : FileStateHandler)
      → info.cut ≡ cut
      → IsFair (judged world conf cut f).1
  unfolding judged
  judged-IsFair conf none f e = inr (inl e)
  judged-IsFair conf (some cut) f e = in_window-IsFair conf cut f e

  skip-IsFair :
      (conf : Conf) (f : FileStateHandler) (skip : Bool)
      → info.skip ≡ skip
      → IsFair (if skip then (f, drops) else judged world conf info.cut f).1
  skip-IsFair conf f true e = inl e
  skip-IsFair conf f false e = judged-IsFair conf info.cut f refl

  judge-IsFair : (conf : Conf) (f : FileStateHandler) → IsFair (judge world conf info f).1
  unfolding judge
  judge-IsFair conf f = skip-IsFair conf f info.skip refl

-- Where the record cache of this moment is put.
abbrev pub cache_file : World → Text
cache_file world =
    (world.host.base_folder
      ++ codes "/"
      ++ world.host.dir_name world.unix_milli
      ++ codes "_"
      ++ world.host.fresh)
    ++ codes "/.cos/state.json"

-- The path is one that filepath.Clean leaves alone, and the temporary name is that of no file.
abbrev pub IsUsable : World → Cache.Disk → Type 0
IsUsable world caches =
    (normalize_record_cache_path world.host (cache_file world) ≡ cache_file world)
    × (world.host.clean (cache_file world) ≡ cache_file world)
    × (world.temp ≢ cache_file world)
    × (lookup world.temp caches ≡ none)

is_empty-append : (xs ys : Text) (y : _) → is_empty (xs ++ y ∷ ys) ≡ false
is_empty-append [] ys y = refl
is_empty-append (x ∷ xs) ys y = refl

-- What is written, with the path and the postfix that were made up for it.
abbrev pub written_cache : World → CollectInfo → FileInfos → RecordCache
written_cache world info all = record (new_record_cache world info all) {
  random_postfix = world.host.fresh;
  cache_path = cache_file world;
}

module _ (world : World) (info : CollectInfo) (all : FileInfos) (caches : Cache.Disk) where
  made_path :
      Cache.get_record_cache_path world.host (new_record_cache world info all)
      ≡ (written_cache world info all, cache_file world)
  unfolding new_record_cache Cache.get_record_cache_path
  made_path = refl

  saves : Cache.save world.host world.fails world.temp (new_record_cache world info all) caches ≡ (
      let w =
        Cache.write_record_cache_file world.host world.fails world.temp
          (cache_file world)
          (written_cache world info all)
          caches in
      (written_cache world info all, w.0, w.1))
  unfolding Cache.save
  saves =
      ap
        (λ (r : RecordCache × Text).
          let w = Cache.write_record_cache_file world.host world.fails world.temp r.1 r.0 caches in
          (r.0, w.0, w.1))
        made_path

module _ (world : World) (info : CollectInfo) where
  abbrev pub IsAsBefore : System → System → Type 0
  IsAsBefore sys sys' = (sys'.infos ≡ sys.infos) × (sys'.published ≡ sys.published)

  abbrev pub IsDropped : System → System → Type 0
  IsDropped sys sys' =
      IsHopeless world info × (sys'.caches ≡ sys.caches) × (sys'.published ≡ sys.published)

  abbrev pub IsCollected : Verdict → System → System → Type 0
  IsCollected v sys sys' =
      (cut : Cut) × (all : FileInfos) × (v ≡ collects cut all)
      × IsOver world info cut
      × (at_path world.host (cache_file world) sys'.caches ≡ some (written_cache world info all))
      × (sys'.published
          ≡ (if world.publishes then cache_file world ∷ sys.published else sys.published))

  abbrev pub Kept : Verdict → System → System → Type 0
  Kept v sys sys' = IsAsBefore sys sys' ⊎ (IsDropped sys sys' ⊎ IsCollected v sys sys')

  publish_parts :
      (path : Text) (sys : System)
      → ((publish world path sys).caches ≡ sys.caches)
        × ((publish world path sys).published
            ≡ (if world.publishes then path ∷ sys.published else sys.published))
  unfolding publish
  publish_parts path sys = ground arith

  saved-Kept :
      (sys : System) (cut : Cut) (all : FileInfos) (caches : Cache.Disk) (saved : Bool)
      → IsOver world info cut
      → (saved ≡ true
          → at_path world.host (cache_file world) caches ≡ some (written_cache world info all))
      → Kept
          (collects cut all)
          sys
          (after_save world info sys (written_cache world info all, caches, saved))
  unfolding after_save publish clean
  saved-Kept sys cut all caches false over written = inl (refl, refl)
  saved-Kept sys cut all caches true over written =
      let parts =
        publish_parts (cache_file world) (clean world info (record sys { caches = caches })) in
      inr (
        inr (
          cut,
          all,
          refl,
          over,
          ap (at_path world.host (cache_file world)) parts.0 ∙ written refl,
          parts.1,
        ))

  collects-Kept :
      (sys : System) (cut : Cut) (all : FileInfos)
      → IsUsable world sys.caches
      → IsOver world info cut
      → Kept (collects cut all) sys (carry_out world info sys (collects cut all))
  unfolding carry_out
  collects-Kept sys cut all usable over =
      let rc = written_cache world info all in
      let filled =
        is_empty-append
          (world.host.base_folder
            ++ codes "/"
            ++ world.host.dir_name world.unix_milli
            ++ codes "_"
            ++ world.host.fresh)
          (codes ".cos/state.json") b'/' in
      let w =
        Cache.write_record_cache_file world.host world.fails world.temp (cache_file world) rc
          sys.caches in
      let saved =
        write-lookup world.host (cache_file world) usable.0 filled usable.1 world.fails world.temp
          (cache_file world) rc sys.caches usable.2 usable.3 in
      let loaded =
        load-written world.host (cache_file world) usable.0 filled usable.1 world.fails world.temp
          rc sys.caches usable.2 usable.3 refl in
      rw (saves world info all sys.caches)
        (saved-Kept sys cut all w.0 w.1 over (λ e. loaded ∙ rw (← saved.0, e) refl))

  verdict-Kept :
      (sys : System) (v : Verdict)
      → IsUsable world sys.caches
      → IsFair world info v
      → Kept v sys (carry_out world info sys v)
  unfolding carry_out clean
  verdict-Kept sys drops usable fair = inr (inl (fair, refl, refl))
  verdict-Kept sys keeps usable fair = inl (refl, refl)
  verdict-Kept sys (collects cut all) usable fair = collects-Kept sys cut all usable fair

  -- A collect info is as it was, with nothing published, unless it is removed for one of the
  -- reasons that make it hopeless, or its window is over and the disk has its record cache, with
  -- the files that were found for it; only the path of that is published.
  pub handle_collect_info-Kept :
      (conf : Conf) (sys : System)
      → IsUsable world sys.caches
      → let sys' = handle_collect_info world conf info sys in
        Kept (judge world conf info sys.file_states).1 sys sys'
  unfolding handle_collect_info
  handle_collect_info-Kept conf sys usable =
      verdict-Kept (record sys { file_states = (judge world conf info sys.file_states).0 })
        (judge world conf info sys.file_states).1 usable
        (judge-IsFair world info conf sys.file_states)
