-- ===== src/CollectInfo/Saving.antt =====
-- Saving and publishing over the calls that can fail (internal/model/collect_info.go).
use co_scout.Prelude.{
  ◌≡◌, ◌≢◌, refl, sym, ap, ◌∙◌, Bool, true, false, ◌&&◌, [], ◌∷◌, ◌++◌, Option, none, some, is_some,
  if◌then◌else◌, Text, text_eq, text_eq_iff, text_eq_refl, codes, lookup, insert, delete,
  lookup-insert, lookup-delete, arith, Option-cases, inl, inr,
}
use co_scout.CollectInfo.{
  CollectInfo, Cut, Files, SaveStep, save_to_file, rename, publish_collect_info, load, load_draft,
  load_from_file, file_path, draft_file_path, publish_loaded,
}

-- A save that fails, at whichever of its calls, leaves every file as it was, and one that succeeds
-- changes the file of the collect info and no other; the temporary file is left in neither case.
pub save_to_file-lookup :
    (fails : SaveStep → Bool) (temp path k : Text) (info : CollectInfo) (files : Files)
    → temp ≢ path
    → lookup temp files ≡ none
    → lookup k (save_to_file fails temp path info files).0 ≡ (
        if (save_to_file fails temp path info files).1 && text_eq path k
        then some (some info)
        else lookup k files)
unfolding save_to_file rename
save_to_file-lookup fails temp path k info files other new = ground (
  arith,
  lookup-delete temp k (insert temp none files),
  lookup-insert temp k none files,
  lookup-delete temp k (insert temp (some info) files),
  lookup-insert temp k (some info) files,
  lookup-delete temp k (insert path (some info) (delete temp (insert temp (some info) files))),
  lookup-insert path k (some info) (delete temp (insert temp (some info) files)),
  text_eq_iff temp k,
  text_eq_iff path k,
)

unfoldable pub has_cut : Option CollectInfo → Bool
has_cut none = false
has_cut (some info) = is_some info.cut

append_longer : (xs : Text) (c : _) (ys : Text) → text_eq (xs ++ c ∷ ys) xs ≡ false
unfolding text_eq
append_longer [] c ys = refl
append_longer (x ∷ xs) c ys = ground (arith, append_longer xs c ys)

unfoldable pub loaded : Text → Option (Option CollectInfo) → Option CollectInfo
loaded id none = none
loaded id (some none) = none
loaded id (some (some info)) = some (record info { id = id })

pub load_from_file_lem :
    (files : Files) (id path : Text) → load_from_file files id path ≡ loaded id (lookup path files)
unfolding load_from_file loaded
load_from_file_lem files id path = ground arith

pub loaded-id :
    (id : Text) (content : Option (Option CollectInfo)) (info : CollectInfo)
    → loaded id content ≡ some info
    → info.id ≡ id
unfolding loaded
loaded-id id none info e = cc
loaded-id id (some none) info e = cc
loaded-id id (some (some old)) info e = sym (ap (λ o. elim o [ none ↦ id | some i ↦ i.id ]) e)

load_draft-id :
    (folder id : Text) (files : Files) (info : CollectInfo)
    → load_draft folder files id ≡ some info
    → info.id ≡ id
unfolding load_draft
load_draft-id folder id files info e =
    loaded-id id (lookup (draft_file_path folder id) files) info
      (sym (load_from_file_lem files id (draft_file_path folder id)) ∙ e)

-- What the two files hold after the renaming.
load-renamed :
    (folder id : Text) (files : Files) (info : CollectInfo)
    → info.id ≡ id
    → let after = rename (draft_file_path folder id) (file_path folder id) (some info) files in
      (load folder after id ≡ some info) × (load_draft folder after id ≡ none)
unfolding rename load load_draft loaded draft_file_path
load-renamed folder id files info e = (
  load_from_file_lem after id p
      ∙ rw (lookup-insert p p (some info) (delete d files), text_eq_refl p) (rw (← e) refl),
  load_from_file_lem after id d
      ∙ rw (lookup-insert p d (some info) (delete d files), lookup-delete d d files, text_eq_refl d)
          (rw other refl),
)
  where
    p : Text
    p = file_path folder id

    d : Text
    d = draft_file_path folder id

    after : Files
    after = insert p (some info) (delete d files)

    other : text_eq p d ≡ false
    other = ground (arith, append_longer p 46 (codes "draft"), text_eq_iff p d, text_eq_iff d p)

publish_loaded_lem :
    (cut : Option Cut) (renames : Bool) (folder id : Text) (info : CollectInfo) (files : Files)
    → info.id ≡ id
    → load_draft folder files id ≡ some info
    → let r = publish_loaded cut renames folder info files in
      (r.1 ≡ renames && is_some cut)
      × (load folder r.0 id ≡ (if r.1 then some info else load folder files id))
      × (load_draft folder r.0 id ≡ (if r.1 then none else some info))
unfolding publish_loaded
publish_loaded_lem none renames folder id info files same e = (ground arith, refl, e)
publish_loaded_lem (some cut) false folder id info files same e = (refl, refl, e)
publish_loaded_lem (some cut) true folder id info files same e =
    let moved =
      ap (λ i. rename (draft_file_path folder i) (file_path folder i) (some info) files) same in
    let both = load-renamed folder id files info same in
    (
      refl,
      ap (λ fs. load folder fs id) moved ∙ both.0,
      ap (λ fs. load_draft folder fs id) moved ∙ both.1,
    )

-- A publication goes through just if the draft can be read and has a cut and its renaming goes
-- through. Then the draft is what the collect info's own file holds, and there is no draft left;
-- otherwise both are as they were.
pub publish_collect_info_lem :
    (renames : Bool) (folder id : Text) (files : Files)
    → let r = publish_collect_info renames folder id files in
      (r.1 ≡ renames && has_cut (load_draft folder files id))
      × (load folder r.0 id ≡ (if r.1 then load_draft folder files id else load folder files id))
      × (load_draft folder r.0 id ≡ (if r.1 then none else load_draft folder files id))
unfolding publish_collect_info has_cut
publish_collect_info_lem renames folder id files =
    elim (Option-cases (load_draft folder files id)) [
      | inl e ↦ rw (publish_collect_info, e) (ground arith, refl, e)
      | inr (info, e) ↦
          rw (publish_collect_info, e)
            (publish_loaded_lem info.cut renames folder id info files
              (load_draft-id folder id files info e) e)
    ]
