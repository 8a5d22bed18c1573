-- ===== src/CollectInfo/Tests.antt =====
-- The theorems about collect infos at concrete files.
use co_scout.Prelude.{
  ◌≡◌, refl, Bool, true, false, [], ◌∷◌, none, some, codes, lookup, arith, text_eq,
}
use co_scout.Prelude.Int.{pos}
use co_scout.CollectInfo.{
  CollectInfo, Files, SaveStep, chmod_temp, make_directory, create_temp, write_temp, close_temp,
  rename_temp, new_info, load, load_draft, save_to_file, publish_collect_info,
}
use co_scout.CollectInfo.Saving.{has_cut, save_to_file-lookup, publish_collect_info_lem}

abbrev collected : CollectInfo
collected = record (new_info (codes "x")) {
  cut = some (record { extra_files = []; start = pos 1; end = pos 2; white_list = [] });
}

abbrev one_draft : Files
one_draft = (codes "d/x.json.draft", some collected) ∷ []

fails_at_chmod : SaveStep → Bool
fails_at_chmod make_directory = false
fails_at_chmod create_temp = false
fails_at_chmod write_temp = false
fails_at_chmod chmod_temp = true
fails_at_chmod close_temp = false
fails_at_chmod rename_temp = false

save_to_file-lookup_example :
    lookup
      (codes "d/x.json.draft")
      (save_to_file fails_at_chmod
        (codes "d/t.tmp")
        (codes "d/x.json.draft")
        (new_info (codes "x"))
        one_draft).0
    ≡ some (some collected)
unfolding lookup text_eq save_to_file fails_at_chmod
save_to_file-lookup_example =
    save_to_file-lookup fails_at_chmod (codes "d/t.tmp") (codes "d/x.json.draft")
      (codes "d/x.json.draft") (new_info (codes "x")) one_draft (λ e. ground arith) refl

publish_collect_info_lem_example :
    let r = publish_collect_info true (codes "d") (codes "x") one_draft in
    (r.1 ≡ true)
    × (load (codes "d") r.0 (codes "x") ≡ some collected)
    × (load_draft (codes "d") r.0 (codes "x") ≡ none)
unfolding publish_collect_info load_draft lookup text_eq has_cut
publish_collect_info_lem_example = publish_collect_info_lem true (codes "d") (codes "x") one_draft
