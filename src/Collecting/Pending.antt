-- ===== src/Collecting/Pending.antt =====
-- What scanCollectInfosAndHandle of internal/mod/rule/handler.go does with a collect info whose
-- window has not gone by, among the others of the folder.
use mathlib.Core.List.{append_cancel_left, append_cancel_right}
use co_scout.Prelude.{
  ◌≡◌, ◌≢◌, not, ◌||◌, refl, sym, ap, ◌∙◌, inl, inr, Bool, true, false, List, [], ◌∷◌, ◌++◌, Option,
  none, some, is_some, if◌then◌else◌, Text, text_eq, text_eq_iff, codes, lookup, lookup-delete,
  arith, Bool-cases,
}
use co_scout.Prelude.Int.{ltb_ℤ}
use co_scout.CollectInfo as Info
use co_scout.CollectInfo.{CollectInfo, Cut}
use co_scout.CollectInfo.Saving.{loaded, load_from_file_lem, loaded-id}
use co_scout.FileState.{FileStateHandler}
use co_scout.FileState.Update.{Conf}
use co_scout.RecordCache.{RecordCache, Disk, save}
use co_scout.Collecting.Handle.{
  World, System, Verdict, drops, keeps, collects, judge, judged, in_window, handle_collect_info,
  carry_out, after_save, publish, clean, new_record_cache,
}
use co_scout.Collecting.Kept.{valid_window}
use co_scout.Collecting.Scan.{
  handle_loaded, handle_each, scan_collect_infos_and_handle, collect_info_ids,
}

-- The collect info is neither skipped nor without a window, and the window has not gone by.
abbrev pub IsPending : World → CollectInfo → Type 0
IsPending world info =
    (info.skip ≡ false)
    × ((cut : Cut) × (info.cut ≡ some cut)
        × (ltb_ℤ cut.end cut.start ≡ false)
        × (ltb_ℤ world.now.unix cut.end ≡ true))

file_path-other :
    (folder a b : Text)
    → a ≢ b
    → text_eq (Info.file_path folder a) (Info.file_path folder b) ≡ false
unfolding Info.file_path
file_path-other folder a b other = ground (
  arith,
  text_eq_iff (Info.file_path folder a) (Info.file_path folder b),
  append_cancel_left folder (codes "/" ++ (a ++ codes ".json")) (codes "/" ++ (b ++ codes ".json")),
  append_cancel_left (codes "/") (a ++ codes ".json") (b ++ codes ".json"),
  append_cancel_right a b (codes ".json"),
)

lookup-clean :
    (readable : Text → Bool) (removes : Bool) (folder a b : Text) (files : Info.Files)
    → a ≢ b
    → lookup (Info.file_path folder b) (Info.clean readable removes folder a files).0
      ≡ lookup (Info.file_path folder b) files
unfolding Info.clean
lookup-clean readable removes folder a b files other = ground (
  arith,
  file_path-other folder a b other,
  lookup-delete (Info.file_path folder a) (Info.file_path folder b) files,
)

-- Removing the file of one collect info leaves that of another.
load-clean :
    (readable : Text → Bool) (removes : Bool) (folder a b : Text) (files : Info.Files)
    → a ≢ b
    → Info.load folder (Info.clean readable removes folder a files).0 b ≡ Info.load folder files b
unfolding Info.load
load-clean readable removes folder a b files other =
    let path = Info.file_path folder b in
    let cleaned = (Info.clean readable removes folder a files).0 in
    load_from_file_lem cleaned b path
    ∙ ap (loaded b) (lookup-clean readable removes folder a b files other)
    ∙ sym (load_from_file_lem files b path)

publish-infos :
    (world : World) (path : Text) (sys : System) → (publish world path sys).infos ≡ sys.infos
unfolding publish
publish-infos world path sys = ground arith

module _ (world : World) (other : CollectInfo) (id : Text) (differs : other.id ≢ id) where
  load_from : System → Option CollectInfo
  load_from sys = Info.load world.info_folder sys.infos id

  clean-other : (sys : System) → load_from (clean world other sys) ≡ load_from sys
  unfolding clean load_from
  clean-other sys =
      load-clean world.fs.readable world.removes world.info_folder other.id id sys.infos differs

  after_save-other :
      (sys : System) (rc : RecordCache) (caches : Disk) (saved : Bool)
      → load_from (after_save world other sys (rc, caches, saved)) ≡ load_from sys
  unfolding after_save load_from
  after_save-other sys rc caches false = refl
  after_save-other sys rc caches true =
      ap (λ files. Info.load world.info_folder files id)
        (publish-infos world rc.cache_path (clean world other (record sys { caches = caches })))
      ∙ clean-other (record sys { caches = caches })

  carry_out-other :
      (sys : System) (v : Verdict) → load_from (carry_out world other sys v) ≡ load_from sys
  unfolding carry_out
  carry_out-other sys drops = clean-other sys
  carry_out-other sys keeps = refl
  carry_out-other sys (collects cut all) =
      let rc = new_record_cache world other all in
      let s = save world.host world.fails world.temp rc sys.caches in
      after_save-other sys s.0 s.1 s.2

  handle_collect_info-other :
      (conf : Conf) (sys : System)
      → load_from (handle_collect_info world conf other sys) ≡ load_from sys
  unfolding handle_collect_info load_from
  handle_collect_info-other conf sys =
      let judgement = judge world conf other sys.file_states in
      carry_out-other (record sys { file_states = judgement.0 }) judgement.1

-- A pending collect info is left as it is when its own turn comes.
judge-pending :
    (world : World) (conf : Conf) (info : CollectInfo) (f : FileStateHandler)
    → IsPending world info
    → judge world conf info f ≡ (f, keeps)
unfolding judge judged in_window
judge-pending world conf info f (unskipped, (cut, e, order, early)) =
    rw (unskipped, e, judged, in_window, valid_window world info cut, order, early) refl

load-id :
    (folder id : Text) (files : Info.Files) (info : CollectInfo)
    → Info.load folder files id ≡ some info
    → info.id ≡ id
unfolding Info.load
load-id folder id files info e =
    loaded-id id (lookup (Info.file_path folder id) files) info
      (sym (load_from_file_lem files id (Info.file_path folder id)) ∙ e)

module _ (worlds : Text → World) (conf : Conf) (folder id : Text) (info : CollectInfo) where
  load_at : System → Option CollectInfo
  load_at sys = Info.load folder sys.infos id

  at_folder :
      (i : Text) (sys sys' : System)
      → (worlds i).info_folder ≡ folder
      → Info.load (worlds i).info_folder sys'.infos id
        ≡ Info.load (worlds i).info_folder sys.infos id
      → load_at sys' ≡ load_at sys
  unfolding load_at
  at_folder i sys sys' e same =
      ap (λ f. Info.load f sys'.infos id) (sym e) ∙ same ∙ ap (λ f. Info.load f sys.infos id) e

  loaded-other :
      (i : Text) (other : CollectInfo) (sys : System)
      → (worlds i).info_folder ≡ folder
      → other.id ≢ id
      → load_at (handle_loaded worlds conf i (some other) sys) ≡ load_at sys
  unfolding handle_loaded load_from
  loaded-other i other sys e differs = elim (Bool-cases (other.skip || not (is_some other.cut))) [
    | inl early ↦ rw early (
        at_folder i sys (clean (worlds i) other sys) e
          (clean-other (worlds i) other id differs sys))
    | inr goes_on ↦ rw goes_on (
        at_folder i sys (handle_collect_info (worlds i) conf other sys) e
          (handle_collect_info-other (worlds i) other id differs conf sys))
  ]

  handled-same :
      (world : World) (sys : System)
      → IsPending world info
      → handle_collect_info world conf info sys ≡ sys
  unfolding handle_collect_info carry_out
  handled-same world sys pending =
      ap (λ v. carry_out world info (record sys { file_states = v.0 }) v.1)
        (judge-pending world conf info sys.file_states pending)

  goes_on : (world : World) → IsPending world info → info.skip || not (is_some info.cut) ≡ false
  goes_on world (unskipped, (cut, e, order, early)) = rw (unskipped, e) refl

  loaded-same :
      (sys : System)
      → IsPending (worlds id) info
      → handle_loaded worlds conf id (some info) sys ≡ sys
  unfolding handle_loaded
  loaded-same sys pending =
      ap
        (λ b.
          if b then clean (worlds id) info sys else handle_collect_info (worlds id) conf info sys)
        (goes_on (worlds id) pending)
      ∙ handled-same (worlds id) sys pending

  module _ (shared : (i : Text) → (worlds i).info_folder ≡ folder)
      (pending : IsPending (worlds id) info) where
    -- One turn, whoever's it is.
    turn-pending :
        (i : Text) (found : Option CollectInfo) (sys : System)
        → load_at sys ≡ some info
        → Info.load folder sys.infos i ≡ found
        → load_at (handle_loaded worlds conf i found sys) ≡ some info
    unfolding handle_loaded load_at
    turn-pending i none sys held e = held
    turn-pending i (some other) sys held e = elim (Bool-cases (text_eq i id)) [
      | inl same ↦
          let own = (text_eq_iff i id).0 same in
          ap (λ j. load_at (handle_loaded worlds conf j (some other) sys)) own
          ∙ ap (λ o. load_at (handle_loaded worlds conf id o sys))
              (sym e ∙ ap (Info.load folder sys.infos) own ∙ held)
          ∙ ap load_at (loaded-same sys pending)
          ∙ held
      | inr apart ↦
          let differs : other.id ≢ id = λ h.
            let yes = (text_eq_iff i id).1 (sym (load-id folder i sys.infos other e) ∙ h) in cc in
          loaded-other i other sys (shared i) differs ∙ held
    ]

    handle_each-pending :
        (ids : List Text) (sys : System)
        → load_at sys ≡ some info
        → load_at (handle_each worlds conf ids sys) ≡ some info
    unfolding handle_each load_at
    handle_each-pending [] sys held = held
    handle_each-pending (i ∷ ids) sys held =
        let found = Info.load (worlds i).info_folder sys.infos i in
        handle_each-pending ids (handle_loaded worlds conf i found sys)
          (turn-pending i found sys held (ap (λ f. Info.load f sys.infos i) (sym (shared i))))

    -- A collect info that is not skipped, and whose window is a proper one that has not gone by
    -- when its turn comes, can be loaded as before after a whole scan of the folder, whatever
    -- happens to the other collect infos; the folder is the same throughout.
    pub scan_collect_infos_and_handle-pending :
        (entries : Option (List (Text × Bool))) (sys : System)
        → Info.load folder sys.infos id ≡ some info
        → Info.load folder (scan_collect_infos_and_handle worlds conf entries sys).infos id
          ≡ some info
    unfolding scan_collect_infos_and_handle load_at
    scan_collect_infos_and_handle-pending none sys held = held
    scan_collect_infos_and_handle-pending (some entries) sys held =
        handle_each-pending (collect_info_ids entries) sys held
