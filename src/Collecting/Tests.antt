-- ===== src/Collecting/Tests.antt =====
-- A collect info whose window is over, on a device with one log file
-- (internal/mod/rule/handler.go).
use co_scout.Prelude.{
  ◌≡◌, refl, Bool, List, Option, Text, true, false, [], ◌∷◌, ◌++◌, none, some, text_eq, codes,
  arith, lookup, insert, delete, trim_space, has_prefix,
}
use co_scout.Prelude.Int.{pos, ◌+ℤ◌}
use co_scout.CollectInfo as Info
use co_scout.CollectInfo.{CollectInfo, new_info}
use co_scout.FileState.Cleanup.{gone}
use co_scout.FileState.Update.{Conf}
use co_scout.RecordCache.{normalize_record_cache_path, save, write_record_cache_file}
use co_scout.TimeWindow.{validate_time_window_at}
use co_scout.SymWalk as Walk
use co_scout.SymWalk.{Answer, ok, err}
use co_scout.SymWalk.Finite.{IsFinite}
use co_scout.Collecting.RuleFiles.{Paths, has_suffix, compute_rule_file_infos}
use co_scout.Collecting.Handle.{World, System, handle_collect_info, judge}
use co_scout.Collecting.Kept.{Kept, handle_collect_info-Kept}
use co_scout.Collecting.Scan.{scan_collect_infos_and_handle, handle_each, collect_info_ids}
use co_scout.Collecting.Pending.{scan_collect_infos_and_handle-pending}

abbrev file : Walk.Info
file = record { is_dir = false; is_symlink = false; size = 5 }

abbrev disk : Walk.Disk
disk = record {
  lstat = λ p. ok file;
  readlink = λ p. err Walk.denied;
  eval_symlinks = λ p. err Walk.denied;
  read_dir = λ p. err Walk.denied;
  abs = λ p. ok p;
  is_abs = λ p. true;
  clean = λ p. p;
  dir = λ p. p;
  join = λ p n. p ++ n;
  sort = λ es. es;
}

abbrev paths : Paths
paths = record {
  stat = λ p. some file;
  base = λ p. p;
  join = λ p n. p ++ codes "/" ++ n;
  rel = λ p q. some q;
}

abbrev world : World
world = record {
  now = record { unix = pos 100; nanos = 0 };
  unix_milli = pos 100000;
  has_birth_time = true;
  upload_files = some ((codes "a.log", pos 5) ∷ []);
  slaves = none;
  abs = λ p. some p;
  fs = record {
    readable = λ p. true;
    stat = λ p. gone;
    read_dir = λ p. none;
    walk = λ p. ([], false);
  };
  handlers = [];
  birth_times = λ p. none;
  path_match = λ p q. some true;
  sort_slice = λ before ss. ss;
  disk = disk;
  paths = paths;
  fuel = 2;
  floats = record { is_millis = λ t. false; div_1000 = λ t. t; sub = λ s t. 0 };
  host = record {
    clean = λ p. p;
    dir = λ p. p;
    base_folder = codes "r";
    dir_name = λ t. codes "d";
    fresh = codes "x";
  };
  fails = λ s. false;
  temp = codes "t";
  writes_states = true;
  info_folder = codes "i";
  removes = true;
  publishes = true;
}

abbrev info : CollectInfo
info = record (new_info (codes "c")) {
  cut = some (record { extra_files = []; start = pos 10; end = pos 90; white_list = [] });
}

abbrev conf : Conf
conf = record {
  listen_dirs = [];
  collect_dirs = [];
  recursively_walk_dirs = false;
  skip_period_hours = 1;
}

abbrev system : System
system = record {
  infos = (codes "i/c.json", some info) ∷ [];
  file_states = record { state = []; listen_dirs = []; collect_dirs = []; saved = none };
  caches = [];
  published = [];
}

abbrev after : System
after = handle_collect_info world conf info system

-- The record is published, and the collect info is gone.
collected : (after.published ≡ codes "r/d_x/.cos/state.json" ∷ []) × (after.infos ≡ [])
unfolding handle_collect_info lookup insert delete text_eq validate_time_window_at ◌+ℤ◌
    compute_rule_file_infos save write_record_cache_file normalize_record_cache_path trim_space
    Info.clean
collected = (refl, refl)

handle_collect_info-Kept_example :
    Kept world info (judge world conf info system.file_states).1 system after
unfolding normalize_record_cache_path trim_space lookup
handle_collect_info-Kept_example =
    handle_collect_info-Kept world info conf system (refl, refl, λ e. ground arith, refl)

no_links : IsFinite disk [] 0
no_links = record {
  height = λ p. 0;
  bounded = λ p. omega arith;
  resolved = λ p r real e at. cc;
  lower = λ p es e. cc;
}

-- The window of the collect info is still open.
abbrev early_world : World
early_world = record world { now = record { unix = pos 50; nanos = 0 } }

abbrev two_infos : System
two_infos = record system {
  infos =
      (codes "i/d.json", some (record info { skip = true })) ∷ (codes "i/c.json", some info) ∷ [];
}

abbrev entries : Option (List (Text × Bool))
entries = some ((codes "d.json", false) ∷ (codes "notes", false) ∷ (codes "c.json", false) ∷ [])

-- The other collect info, which is skipped, is removed.
others_removed :
    (scan_collect_infos_and_handle (λ i. early_world) conf entries two_infos).infos
    ≡ (codes "i/c.json", some info) ∷ []
unfolding scan_collect_infos_and_handle handle_each collect_info_ids handle_collect_info lookup
    delete text_eq validate_time_window_at ◌+ℤ◌ Info.load Info.clean has_suffix has_prefix
others_removed = refl

scan_collect_infos_and_handle-pending_example :
    Info.load
      (codes "i")
      (scan_collect_infos_and_handle (λ i. early_world) conf entries two_infos).infos
      (codes "c")
    ≡ some info
unfolding Info.load lookup text_eq
scan_collect_infos_and_handle-pending_example =
    scan_collect_infos_and_handle-pending (λ i. early_world) conf (codes "i") (codes "c") info
      (λ i. refl) (refl, (_, refl, refl, refl)) entries two_infos refl
