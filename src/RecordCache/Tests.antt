-- ===== src/RecordCache/Tests.antt =====
-- A record cache that is made, updated twice and read again (internal/model/record_cache.go).
use co_scout.Prelude.{
  ◌≡◌, ◌≢◌, refl, Bool, true, false, List, [], ◌∷◌, Option, none, some, Text, text_eq, codes,
  lookup, insert, delete, trim_space, arith,
}
use co_scout.Prelude.Int.{pos}
use co_scout.RecordCache.{
  RecordCache, Disk, WriteStep, Host, load_record_cache, save, reload, rename_temp, make_directory,
  marshal, create_temp, write_temp, chmod_temp, close_temp, load_record_cache_file,
  normalize_record_cache_path, write_record_cache_file,
}
use co_scout.RecordCache.Updates.{Update, run, run-load, apply_all, apply, save-reload}

abbrev host : Host
host = record {
  clean = λ p. p;
  dir = λ p. p;
  base_folder = codes "r";
  dir_name = λ t. codes "d";
  fresh = codes "x";
}

abbrev new_cache : RecordCache
new_cache = record {
  cache_path = [];
  uploaded = false;
  skipped = false;
  event_code = [];
  project_name = codes "p";
  timestamp = pos 1000;
  labels = [];
  titles = none;
  moments = [];
  upload_task = [];
  diagnosis_task = none;
  original_files = [];
  uploaded_file_paths = [];
  random_postfix = [];
}

abbrev all_well : WriteStep → Bool
all_well s = false

abbrev no_rename : WriteStep → Bool
no_rename rename_temp = true
no_rename make_directory = false
no_rename marshal = false
no_rename create_temp = false
no_rename write_temp = false
no_rename chmod_temp = false
no_rename close_temp = false

abbrev where_saved : Text
where_saved = codes "r/d_x/.cos/state.json"

-- The path is made up by the first save, and the file is found there.
saved_and_loaded :
    load_record_cache host where_saved (save host all_well (codes "t") new_cache []).1
    ≡ some (record new_cache { cache_path = where_saved; random_postfix = codes "x" })
unfolding load_record_cache save normalize_record_cache_path load_record_cache_file
    write_record_cache_file trim_space lookup insert delete text_eq
saved_and_loaded = refl

abbrev here : RecordCache
here = record new_cache { cache_path = codes "s" }

s_normal : normalize_record_cache_path host (codes "s") ≡ codes "s"
unfolding normalize_record_cache_path trim_space apply
s_normal = refl

abbrev stored : Disk
stored = (codes "s", some new_cache) ∷ []

abbrev mark_uploaded : RecordCache → Option RecordCache
mark_uploaded rc = some (record rc { uploaded = true })

abbrev mark_skipped : RecordCache → Option RecordCache
mark_skipped rc = some (record rc { skipped = true })

abbrev updates : List Update
updates =
    record { fails = all_well; temp = codes "t"; change = mark_uploaded }
    ∷ record { fails = no_rename; temp = codes "u"; change = mark_skipped }
    ∷ []

run-load_example :
    (load_record_cache_file host (codes "s") (run host (codes "s") updates stored)
      ≡ some (record here { uploaded = true }))
    × (codes "k" ≢ codes "s"
        → lookup (codes "k") (run host (codes "s") updates stored) ≡ lookup (codes "k") stored)
unfolding apply_all load_record_cache_file lookup text_eq normalize_record_cache_path trim_space
    apply
run-load_example =
    run-load host (codes "s") s_normal refl refl updates (codes "k") stored
      ((λ e. ground arith, refl), ((λ e. ground arith, refl), tt))

save-reload_example :
    ((save host all_well (codes "t") here stored).2 ≡ true)
    × (reload host here (save host all_well (codes "t") here stored).1 ≡ (here, true))
unfolding save write_record_cache_file lookup text_eq normalize_record_cache_path trim_space apply
save-reload_example =
    save-reload host (codes "s") s_normal refl refl all_well (codes "t") here here stored
      (λ e. ground arith) refl refl refl
