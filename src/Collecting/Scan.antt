-- ===== src/Collecting/Scan.antt =====
-- scanCollectInfosAndHandle of internal/mod/rule/handler.go. The entries of the folder are given
-- with whether they are directories, and what the world is like when a collect info is handled.
use co_scout.Prelude.{
  Bool, not, ◌||◌, List, [], ◌∷◌, Option, none, some, is_some, if◌then◌else◌, Text, codes, take,
  length, ◌-◌,
}
use co_scout.CollectInfo as Info
use co_scout.CollectInfo.{CollectInfo}
use co_scout.FileState.Update.{Conf}
use co_scout.Collecting.RuleFiles.{has_suffix}
use co_scout.Collecting.Handle.{World, System, clean, handle_collect_info}

unfoldable pub trim_suffix : Text → Text → Text
trim_suffix s suffix = if has_suffix s suffix then take (length s - length suffix) s else s

unfoldable pub collect_info_ids : List (Text × Bool) → List Text
unfolding trim_suffix
collect_info_ids [] = []
collect_info_ids ((name, is_dir) ∷ entries) =
    let rest = collect_info_ids entries in
    if is_dir || not (has_suffix name (codes ".json"))
    then rest
    else trim_suffix name (codes ".json") ∷ rest

module _ (worlds : Text → World) (conf : Conf) where
  -- A collect info that is skipped or has no cut is removed at once.
  unfoldable pub handle_loaded : Text → Option CollectInfo → System → System
  handle_loaded id none sys = sys
  handle_loaded id (some info) sys =
      if info.skip || not (is_some info.cut)
      then clean (worlds id) info sys
      else handle_collect_info (worlds id) conf info sys

  unfoldable pub handle_each : List Text → System → System
  unfolding handle_loaded
  handle_each [] sys = sys
  handle_each (id ∷ ids) sys =
      handle_each ids (handle_loaded id (Info.load (worlds id).info_folder sys.infos id) sys)

  -- Nothing is done if the folder cannot be read.
  unfoldable pub scan_collect_infos_and_handle : Option (List (Text × Bool)) → System → System
  unfolding handle_each collect_info_ids
  scan_collect_infos_and_handle none sys = sys
  scan_collect_infos_and_handle (some entries) sys = handle_each (collect_info_ids entries) sys
