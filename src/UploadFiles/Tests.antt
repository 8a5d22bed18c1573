-- ===== src/UploadFiles/Tests.antt =====
-- A folder with two log files and an additional file (pkg/upload/file.go).
use co_scout.Prelude.{
  ◌≡◌, ◌⊎◌, ℕ, refl, true, false, [], ◌∷◌, ◌++◌, Option, none, some, text_eq, Text, Bool, codes,
  arith, insert, All,
}
use co_scout.Prelude.Int.{pos, ◌+ℤ◌}
use co_scout.FileState.Update.{DirEntry, matches_whitelist}
use co_scout.RecordCache.{FileInfo}
use co_scout.SymWalk as Walk
use co_scout.SymWalk.{ok, err}
use co_scout.SymWalk.Finite.{IsFinite}
use co_scout.TimeWindow.{Time, TimeWindowError, validate_time_window_at}
use co_scout.UploadFiles.{
  Site, Task, Found, compute_upload_files, scan_all, scan_folders, entry_files, target, put,
}
use co_scout.Collecting.RuleFiles.{get_real_file_info, relative_name}
use co_scout.UploadFiles.Told.{IsTold}
use co_scout.UploadFiles.Total.{compute_upload_files-IsTold}

abbrev is_folder : Text → Bool
is_folder p = text_eq p (codes "d")

abbrev disk : Walk.Disk
disk = record {
  lstat = λ p. ok (record { is_dir = is_folder p; is_symlink = false; size = 5 });
  readlink = λ p. err Walk.denied;
  eval_symlinks = λ p. err Walk.denied;
  read_dir = λ p. err Walk.denied;
  abs = λ p. ok p;
  is_abs = λ p. true;
  clean = λ p. p;
  dir = λ p. p;
  join = λ p n. p ++ n;
  sort = λ es. es;
}

abbrev log : Text → ℕ → DirEntry
log p modified = record {
  path = p;
  is_dir = false;
  info = some (record { size = pos 5; mod_unix = pos modified; mod_nanos = 0; is_dir = false });
}

abbrev site : Site
site = record {
  disk = disk;
  paths = record {
    stat = λ p. some (record { is_dir = is_folder p; is_symlink = false; size = 5 });
    base = λ p. p;
    join = λ p n. p ++ codes "/" ++ n;
    rel = λ p q. some q;
  };
  readable = λ p. true;
  path_match = λ p q. some true;
  read_dir = λ p. some (log (codes "d/old.log") 5 ∷ log (codes "d/new.log") 50 ∷ []);
  mod_time = λ p. pos 0;
  birth_time = λ p. some none;
}

abbrev task : Task
task = record {
  scan_folders = codes "d" ∷ [];
  additional_files = codes "x" ∷ [];
  white_list = [];
  recursively_walk_dirs = false;
  start_time = pos 10;
  end_time = pos 90;
}

abbrev now : Time
now = record { unix = pos 100; nanos = 0 }

abbrev told : Text → Text × FileInfo
told p = (p, record { path = p; size = pos 5; sha256 = []; file_name = p })

-- The older file lies before the window, and the additional file too, which is told all the same.
two_told :
    compute_upload_files site task 2 now
    ≡ some (
      record {
        files = told (codes "d/new.log") ∷ told (codes "x") ∷ [];
        no_permission_folders = [];
      },
      none,
    )
unfolding compute_upload_files scan_all scan_folders entry_files target put text_eq insert
    validate_time_window_at ◌+ℤ◌ matches_whitelist get_real_file_info relative_name
two_told = refl

no_links : IsFinite disk [] 0
no_links = record {
  height = λ p. 0;
  bounded = λ p. omega arith;
  resolved = λ p r real e at. cc;
  lower = λ p es e. cc;
}

compute_upload_files-IsTold_example :
    (found : Found) × (e : Option TimeWindowError) × (compute_upload_files site task 2 now
      ≡ some (found, e))
    × All (IsTold site task) found.files
    × ((validate_time_window_at (pos 10) (pos 90) now ≡ none) ⊎ (found.files ≡ []))
compute_upload_files-IsTold_example =
    compute_upload_files-IsTold site task [] 0 2 no_links (omega arith) now
