-- ===== src/Rule/Engine/Drafts.antt =====
-- The limits of uploads, and the draft that the actions of a rule leave
-- (internal/mod/rule/engine.go).
use co_scout.Prelude.{
  ◌≡◌, ◌≢◌, refl, ap, ◌∙◌, sym, subst, Bool, true, false, not, ◌&&◌, ◌||◌, List, [], Option, none,
  some, if◌then◌else◌, Text, text_eq, text_eq_iff, text_eq_refl, lookup, arith, Bool-cases, inl,
  inr,
}
use co_scout.Prelude.Int.{ℤ, ltb_ℤ}
use co_scout.CollectInfo.{
  CollectInfo, Float, Files, SaveStep, load_draft, load_from_file, draft_file_path, save_draft,
  save_to_file, ensure_id, make_directory, create_temp, write_temp, chmod_temp, close_temp,
  rename_temp,
}
use co_scout.CollectInfo.Saving.{save_to_file-lookup}
use co_scout.Rule.Engine.{NamedRule}
use co_scout.Rule.Engine.Kwargs.{UploadLimit}
use co_scout.Rule.Engine.Upload.{
  Count, can_upload, Hit, UploadArgs, MomentArgs, Disk, draft_of, with_upload, with_moment,
  run_upload, run_create_moment,
}

-- Whether a limit is set and the count is had and is at the limit or over.
unfoldable pub is_reached : Option ℤ → Option ℤ → Bool
is_reached none count = false
is_reached (some times) none = false
is_reached (some times) (some count) = not (ltb_ℤ count times)

-- Whether a limit is set and there is no count.
unfoldable pub is_uncounted : Option ℤ → Option ℤ → Bool
is_uncounted none count = false
is_uncounted (some times) none = true
is_uncounted (some times) (some count) = false

-- An upload is refused just if the device has reached its limit, or all have reached the global
-- one and the device's hits did not fail to be counted.
pub can_upload_lem :
    (count : Count) (limit : UploadLimit) (rule : NamedRule) (device_name : Text)
    → can_upload count limit rule device_name
      ≡ not (
          is_reached limit.device (count rule device_name)
          || (not (is_uncounted limit.device (count rule device_name))
              && is_reached limit.global (count rule [])))
unfolding can_upload is_reached is_uncounted
can_upload_lem count limit rule device_name = ground arith

load_draft_of :
    (folder id : Text) (files : Files) (info : CollectInfo)
    → lookup (draft_file_path folder id) files ≡ some (some info)
    → info.id ≡ id
    → load_draft folder files id ≡ some info
unfolding load_draft load_from_file
load_draft_of folder id files info e same =
    rw (load_draft, load_from_file, e) (ap (λ i. some (record info { id = i })) (sym same))

draft_of-id : (disk : Disk) (id : Text) (files : Files) → (draft_of disk id files).id ≡ id
unfolding draft_of load_draft load_from_file
draft_of-id disk id files = ground arith

-- A disk on which no call fails, and whose temporary name is not in use.
pub record IsReady (disk : Disk) (id : Text) (files : Files) : Type 0 where
  pub sound : (step : SaveStep) → disk.fails step ≡ false
  pub other : disk.temp ≢ draft_file_path disk.folder id
  pub unused : lookup disk.temp files ≡ none

save_to_file-succeeds :
    (fails : SaveStep → Bool) (temp path : Text) (info : CollectInfo) (files : Files)
    → ((step : SaveStep) → fails step ≡ false)
    → (save_to_file fails temp path info files).1 ≡ true
unfolding save_to_file
save_to_file-succeeds fails temp path info files sound =
    rw
      (
        sound make_directory,
        sound create_temp,
        sound write_temp,
        sound chmod_temp,
        sound close_temp,
        sound rename_temp,
      )
      refl

ensure_id_same :
    (fresh : Text) (info : CollectInfo) → text_eq info.id [] ≡ false → ensure_id fresh info ≡ info
unfolding ensure_id text_eq
ensure_id_same fresh info n = ground arith

save_draft_lem :
    (disk : Disk) (id : Text) (info : CollectInfo) (files : Files)
    → info.id ≡ id
    → text_eq id [] ≡ false
    → save_draft disk.fails disk.temp disk.fresh disk.folder info files
      ≡ save_to_file disk.fails disk.temp (draft_file_path disk.folder id) info files
unfolding save_draft
save_draft_lem disk id info files same n =
    ap (λ i. save_to_file disk.fails disk.temp (draft_file_path disk.folder i.id) i files)
      (ensure_id_same disk.fresh info (ap (λ i. text_eq i []) same ∙ n))
    ∙ ap (λ i. save_to_file disk.fails disk.temp (draft_file_path disk.folder i) info files) same

save_to_file-load :
    (disk : Disk) (id : Text) (info : CollectInfo) (files : Files)
    → IsReady disk id files
    → info.id ≡ id
    → let r = save_to_file disk.fails disk.temp (draft_file_path disk.folder id) info files in
      (r.1 ≡ true) × (load_draft disk.folder r.0 id ≡ some info) × IsReady disk id r.0
save_to_file-load disk id info files ready same = (
  ok,
  load_draft_of disk.folder id _ info (looks path ∙ rw (ok, text_eq_refl path) refl) same,
  record {
    sound = ready.sound;
    other = ready.other;
    unused = looks disk.temp ∙ rw (ok, elsewhere) ready.unused;
  },
)
  where
    path : Text
    path = draft_file_path disk.folder id

    ok : (save_to_file disk.fails disk.temp path info files).1 ≡ true
    ok = save_to_file-succeeds disk.fails disk.temp path info files ready.sound

    looks :
        (k : Text)
        → lookup k (save_to_file disk.fails disk.temp path info files).0 ≡ (
            if (save_to_file disk.fails disk.temp path info files).1 && text_eq path k
            then some (some info)
            else lookup k files)
    looks k = save_to_file-lookup disk.fails disk.temp path k info files ready.other ready.unused

    elsewhere : text_eq path disk.temp ≡ false
    elsewhere = elim (Bool-cases (text_eq path disk.temp)) [
      | inl e ↦ absurd (ready.other (sym ((text_eq_iff path disk.temp).0 e)))
      | inr e ↦ e
    ]

-- The draft that the two actions of a rule leave, for an identifier.
save_draft-load :
    (disk : Disk) (id : Text) (info : CollectInfo) (files : Files)
    → IsReady disk id files
    → info.id ≡ id
    → text_eq id [] ≡ false
    → let r = save_draft disk.fails disk.temp disk.fresh disk.folder info files in
      (r.1 ≡ true) × (load_draft disk.folder r.0 id ≡ some info) × IsReady disk id r.0
save_draft-load disk id info files ready same n =
    subst
      (λ (r : Files × Bool).
        (r.1 ≡ true) × (load_draft disk.folder r.0 id ≡ some info) × IsReady disk id r.0)
      (sym (save_draft_lem disk id info files same n))
      (save_to_file-load disk id info files ready same)

draft_of_loaded :
    (disk : Disk) (id : Text) (files : Files) (info : CollectInfo)
    → load_draft disk.folder files id ≡ some info
    → draft_of disk id files ≡ info
unfolding draft_of
draft_of_loaded disk id files info e = rw (draft_of, e) refl

module _ (parse_duration : Text → Option ℤ) (parse_float : Text → Option Float)
    (time_of_float : Float → ℤ) (float_sec : ℤ → Float) (disk : Disk) (count : Count)
    (device_name : Text) where
  uploaded : UploadArgs → CollectInfo → CollectInfo
  uploaded a =
      with_upload parse_duration parse_float time_of_float float_sec a
        (can_upload count a.limit a.rule device_name)

  run_upload-load :
      (a : UploadArgs) (files : Files) (hits : List Hit)
      → IsReady disk a.collect_info_id files
      → text_eq a.collect_info_id [] ≡ false
      → let r =
          run_upload parse_duration parse_float time_of_float float_sec disk count device_name a
            (files, hits) in
        (load_draft disk.folder r.0.0 a.collect_info_id
          ≡ some (uploaded a (draft_of disk a.collect_info_id files)))
        × IsReady disk a.collect_info_id r.0.0
  unfolding run_upload with_upload uploaded
  run_upload-load a files hits ready n =
      let r =
        save_draft-load disk a.collect_info_id (uploaded a (draft_of disk a.collect_info_id files))
          files ready (draft_of-id disk a.collect_info_id files) n in
      (r.1, r.2)

  moved : MomentArgs → CollectInfo → CollectInfo
  moved m = with_moment parse_duration parse_float time_of_float float_sec m

  run_create_moment-load :
      (m : MomentArgs) (id : Text) (files : Files)
      → IsReady disk id files
      → text_eq id [] ≡ false
      → m.collect_info_id ≡ id
      → let r = run_create_moment parse_duration parse_float time_of_float float_sec disk m files in
        (load_draft disk.folder r.0 id ≡ some (moved m (draft_of disk id files)))
        × IsReady disk id r.0
  unfolding run_create_moment with_moment moved
  run_create_moment-load m id files ready n same =
      let r =
        save_draft-load disk id (moved m (draft_of disk m.collect_info_id files)) files ready
          (draft_of-id disk m.collect_info_id files ∙ same) n in
      (r.1 ∙ ap (λ i. some (moved m (draft_of disk i files))) same, r.2)

  -- On a disk on which nothing fails, an upload and the creation of a moment for the same collect
  -- info leave the same draft in either order: neither takes back what the other filled in.
  pub run_upload-run_create_moment :
      (a : UploadArgs) (m : MomentArgs) (files : Files) (hits : List Hit)
      → IsReady disk a.collect_info_id files
      → text_eq a.collect_info_id [] ≡ false
      → m.collect_info_id ≡ a.collect_info_id
      → let uploaded_first =
          run_upload parse_duration parse_float time_of_float float_sec disk count device_name a
            (files, hits) in
        let moved_first =
          run_create_moment parse_duration parse_float time_of_float float_sec disk m files in
        load_draft disk.folder
          (run_create_moment parse_duration parse_float time_of_float float_sec disk m
            uploaded_first.0.0).0
          a.collect_info_id
        ≡ load_draft disk.folder
            (run_upload parse_duration parse_float time_of_float float_sec disk count device_name a
              (moved_first.0, hits)).0.0
            a.collect_info_id
  unfolding uploaded moved with_upload with_moment
  run_upload-run_create_moment a m files hits ready n same =
      let id = a.collect_info_id in
      let up = run_upload-load a files hits ready n in
      let then_moved = run_create_moment-load m id _ up.1 n same in
      let mv = run_create_moment-load m id files ready n same in
      let then_up = run_upload-load a _ hits mv.1 n in
      then_moved.0
      ∙ ap (λ i. some (moved m i)) (draft_of_loaded disk id _ _ up.0)
      ∙ sym (then_up.0 ∙ ap (λ i. some (uploaded a i)) (draft_of_loaded disk id _ _ mv.0))
