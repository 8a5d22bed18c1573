-- ===== src/SymWalk/Tests.antt =====
-- A directory with a file, an empty file and a link to itself (pkg/utils/symwalk.go).
use co_scout.Prelude.{
  ℕ, ◌≡◌, refl, true, false, List, [], ◌∷◌, ◌++◌, some, if◌then◌else◌, Text, text_eq, codes, arith,
  is_some, ◌≤◌, All, subst,
}
use co_scout.SymWalk.{
  Disk, Info, Entry, ok, err, too_many_links, default_sym_walk_options, get_all_file_paths,
  sym_walk, file_walk_fn, append_path, entry_info, is_visited,
}
use co_scout.SymWalk.Finite.{IsFinite}
use co_scout.SymWalk.Termination.{sym_walk-returns}
use co_scout.SymWalk.Tree.{Tree, file, folder, cycle, nil, cons, Shows, files_of, depth, cap}
use co_scout.SymWalk.Complete.{get_all_file_paths-files_of}

abbrev plain : ℕ → Info
plain n = record { is_dir = false; is_symlink = false; size = n }

abbrev directory : Info
directory = record { is_dir = true; is_symlink = false; size = 4096 }

abbrev link_info : Info
link_info = record { is_dir = false; is_symlink = true; size = 1 }

abbrev entries : List Entry
entries =
    record { name = codes "a"; link = false; info = ok (plain 3) }
    ∷ record { name = codes "b"; link = false; info = ok (plain 0) }
    ∷ record { name = codes "l"; link = true; info = ok link_info }
    ∷ []

abbrev looping : Disk
looping = record {
  lstat = λ p. if text_eq p (codes "r") then ok directory else ok link_info;
  readlink = λ p. ok (codes "r");
  eval_symlinks = λ p. ok (codes "r");
  read_dir = λ p. ok entries;
  abs = λ p. ok p;
  is_abs = λ p. true;
  clean = λ p. p;
  dir = λ p. p;
  join = λ p n. p ++ n;
  sort = λ es. es;
}

-- The file behind the link is listed a second time, and then the link is known.
looping_listed :
    get_all_file_paths looping default_sym_walk_options 4 (codes "r")
    ≡ some (ok (codes "ra" ∷ codes "rla" ∷ []))
unfolding get_all_file_paths text_eq
looping_listed = refl

not_root : (p : Text) → text_eq (p ++ codes "l") (codes "r") ≡ false
unfolding text_eq
not_root [] = refl
not_root (c ∷ []) = ground arith
not_root (c ∷ d ∷ p) = ground arith

abbrev IsLower : Text → Entry → Type 0
IsLower p e = (i : Info) → entry_info looping e (p ++ e.name) ≡ ok i → i.is_dir ≡ true → 1 ≤ 0

entries-IsLower : (p : Text) → All (IsLower p) entries
unfolding entry_info
entries-IsLower p =
    (λ i e d. ground arith, (λ i e d. ground arith, (λ i e d. ground (arith, not_root p), tt)))

looping-IsFinite : IsFinite looping (codes "r" ∷ []) 0
unfolding is_visited text_eq
looping-IsFinite = record {
  height = λ p. 0;
  bounded = λ p. omega arith;
  resolved = λ p r real e at. ground arith;
  lower = λ p es e.
      let q : entries ≡ es = ground arith in subst (All (IsLower p)) q (entries-IsLower p);
}

sym_walk-returns_example :
    is_some (
      sym_walk looping default_sym_walk_options
        (file_walk_fn looping default_sym_walk_options append_path)
        4
        (codes "r")
        (0, []))
    ≡ true
sym_walk-returns_example =
    sym_walk-returns looping default_sym_walk_options
      (file_walk_fn looping default_sym_walk_options append_path) (codes "r" ∷ []) 0
      looping-IsFinite (codes "r") 4 (0, []) (omega arith)

abbrev circular : Disk
circular = record looping { eval_symlinks = λ p. err too_many_links }

abbrev tree : Tree
tree = folder (cons (file (codes "ra") 3) (cons (file (codes "rb") 0) (cons cycle nil)))

circular-Shows : Shows circular tree (codes "r") directory
unfolding Shows entry_info text_eq
circular-Shows = (
  refl,
  refl,
  entries,
  refl,
  (
    record { name = codes "a"; link = false; info = ok (plain 3) },
    record { name = codes "b"; link = false; info = ok (plain 0) }
        ∷ record { name = codes "l"; link = true; info = ok link_info }
        ∷ [],
    plain 3,
    refl,
    refl,
    (refl, refl, refl, refl),
    (
      record { name = codes "b"; link = false; info = ok (plain 0) },
      record { name = codes "l"; link = true; info = ok link_info } ∷ [],
      plain 0,
      refl,
      refl,
      (refl, refl, refl, refl),
      (
        record { name = codes "l"; link = true; info = ok link_info },
        [],
        link_info,
        refl,
        refl,
        (refl, codes "r", refl, codes "rl", refl, refl),
        refl,
      ),
    ),
  ),
)

get_all_file_paths-files_of_example :
    get_all_file_paths circular default_sym_walk_options 4 (codes "r") ≡ some (ok (codes "ra" ∷ []))
unfolding files_of cap depth text_eq
get_all_file_paths-files_of_example =
    get_all_file_paths-files_of circular default_sym_walk_options refl refl tree (codes "r")
      directory 3 refl circular-Shows (omega arith)
