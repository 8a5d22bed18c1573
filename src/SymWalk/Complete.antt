-- ===== src/SymWalk/Complete.antt =====
-- What GetAllFilePaths of pkg/utils/symwalk.go lists.
use co_scout.Prelude.{
  ℕ, zero, suc, ◌≤◌, ◌≡◌, ◌⊎◌, refl, ap, ◌∙◌, true, false, not, ◌&&◌, List, [], ◌∷◌, ◌++◌, Option,
  none, some, Text, ◌==◌, arith, Bool-cases, inl, inr, length, length-append, append-nil,
  append_assoc, text_eq,
}
use co_scout.SymWalk.{
  Disk, SymWalkOptions, Info, Entry, ok, err, Outcome, WalkFunc, denied, skip_dir, too_many_links,
  file_walk_fn, append_path, symwalk, entry, get_all_file_paths, walk_entries, descend, Walk,
  abs_link_target, after_entry, process_entry, and_then, drop_skip_dir, is_skip_dir, walk_directory,
  skip_or_report, is_permission_error, is_too_many_links, handle_symlink, resolve_link, info_of,
  sym_walk, walk_file_paths, listed,
}
use co_scout.SymWalk.Tree.{
  Tree, Forest, file, folder, locked, cycle, nil, cons, depth, depth_all, files_of, files_of_all,
  depth_all_pos, Shows, ShowsAll, cap, is_full, cap-nil, cap-cap_append, cap-cap, cap_full,
  cap_room,
}

module _ (disk : Disk) (options : SymWalkOptions) (follows : options.follow_symlinks ≡ true)
    (skips : options.skip_permission_errors ≡ true) where
  abbrev most : ℕ
  most = options.max_files

  abbrev called : WalkFunc (ℕ × List Text)
  called = file_walk_fn disk options append_path

  abbrev state : List Text → ℕ × List Text
  state paths = (length paths, paths)

  -- The walk has come back with these paths; if it came back with `SkipDir`, there is no room left.
  abbrev Gives : List Text → List Text → Outcome (ℕ × List Text) → Type 0
  Gives visited paths r =
      (r ≡ some (visited, state paths, none))
      ⊎ ((r ≡ some (visited, state paths, some skip_dir)) × (is_full most paths ≡ true))

  Gives-drop_skip_dir :
      (visited paths : List Text) (r : Outcome (ℕ × List Text))
      → Gives visited paths r
      → drop_skip_dir r ≡ some (visited, state paths, none)
  unfolding drop_skip_dir is_skip_dir
  Gives-drop_skip_dir visited paths r (inl e) = rw (e, drop_skip_dir) refl
  Gives-drop_skip_dir visited paths r (inr (e, full)) = rw (e, drop_skip_dir) refl

  abbrev with_new : List Text → List Text → List Text
  with_new paths new = cap most (paths ++ new)

  abbrev IsCapped : List Text → Type 0
  IsCapped paths = cap most paths ≡ paths

  with_new-nil : (paths : List Text) → IsCapped paths → with_new paths [] ≡ paths
  with_new-nil paths capped = rw append-nil capped

  abbrev Lists : Walk (ℕ × List Text) → Tree → Text → Info → Type 0
  Lists walk t path info =
      (visited paths : List Text)
      → IsCapped paths
      → Gives visited (with_new paths (files_of options.skip_empty_files t))
          (walk path info visited (state paths))

  called-full :
      (path : Text) (info : Info) (paths : List Text)
      → info.is_dir ≡ false
      → is_full most paths ≡ true
      → called path (entry info) (state paths) ≡ (state paths, some skip_dir)
  unfolding file_walk_fn
  called-full path info paths plain full = rw (file_walk_fn, plain, full) refl

  called-room :
      (path real : Text) (info : Info) (paths : List Text)
      → info.is_dir ≡ false
      → disk.abs path ≡ ok real
      → is_full most paths ≡ false
      → called path (entry info) (state paths) ≡ (state (paths ++ real ∷ []), none)
  unfolding file_walk_fn append_path
  called-room path real info paths plain at room =
      rw (file_walk_fn, plain, room, at)
        (ap (λ (n : ℕ). ((n, paths ++ real ∷ []), none))
          (omega (arith, length-append {0} paths (real ∷ []))))

  file-Gives :
      (walk : Walk (ℕ × List Text)) (path real : Text) (info : Info) (visited paths : List Text)
      → info.is_dir ≡ false
      → disk.abs path ≡ ok real
      → IsCapped paths
      → Gives visited (with_new paths (real ∷ [])) (
          descend disk options called walk path info visited
            (called path (entry info) (state paths)))
  unfolding descend
  file-Gives walk path real info visited paths plain at capped =
      elim (Bool-cases (is_full most paths)) [
        | inl full ↦
            rw
              (called-full path info paths plain full, cap_full most paths (real ∷ []) full, capped)
              (inr (refl, full))
        | inr room ↦
            rw
              (called-room path real info paths plain at room, cap_room most paths real room, plain)
              (inl refl)
      ]

  -- A directory is not a file for the callback.
  called-dir :
      (path : Text) (info : Info) (paths : List Text)
      → info.is_dir ≡ true
      → called path (entry info) (state paths) ≡ (state paths, none)
  unfolding file_walk_fn
  called-dir path info paths dir = rw (file_walk_fn, dir) refl

  -- What a folder's entries give, one after the other.
  and_then-Gives :
      (visited paths new more : List Text) (r : Outcome (ℕ × List Text))
      (k : List Text → ℕ × List Text → Outcome (ℕ × List Text))
      → Gives visited (with_new paths new) r
      → Gives visited (with_new (with_new paths new) more) (k visited (state (with_new paths new)))
      → Gives visited (with_new paths (new ++ more)) (and_then r k)
  unfolding and_then
  and_then-Gives visited paths new more r k (inl e) next =
      rw (e, ← append_assoc paths new more, ← cap-cap_append most (paths ++ new) more) next
  and_then-Gives visited paths new more r k (inr (e, full)) next =
      rw
        (
          e,
          ← append_assoc paths new more,
          ← cap-cap_append most (paths ++ new) more,
          cap_full most (with_new paths new) more full,
          cap-cap most (paths ++ new),
        )
        (inr (refl, full))

  Gives-after_entry :
      (i : Info) (visited paths : List Text) (r : Outcome (ℕ × List Text))
      → Gives visited paths r
      → Gives visited paths (after_entry i r)
  unfolding after_entry
  Gives-after_entry i visited paths r h = elim (Bool-cases (not i.is_dir && not i.is_symlink)) [
    | inl e ↦ rw e h
    | inr e ↦ rw e (inl (Gives-drop_skip_dir visited paths r h))
  ]

  -- A directory that cannot be read, and a link that leads back to itself, are passed over.
  skip_or_report-denied :
      {W : Type 0} (walk_fn : WalkFunc W) (path : Text) (info : Option Info) (visited : List Text)
      (w : W)
      → skip_or_report disk options walk_fn path info denied visited w ≡ some (visited, w, none)
  unfolding skip_or_report is_permission_error
  skip_or_report-denied walk_fn path info visited w = rw (skip_or_report, skips) refl

  descend-dir :
      (walk : Walk (ℕ × List Text)) (path : Text) (info : Info) (visited paths : List Text)
      → info.is_dir ≡ true
      → descend disk options called walk path info visited (called path (entry info) (state paths))
        ≡ walk_directory disk options called walk path visited (state paths)
  unfolding descend
  descend-dir walk path info visited paths dir =
      ap (descend disk options called walk path info visited) (called-dir path info paths dir)
      ∙ rw (descend, dir) refl

  locked-Gives :
      (walk : Walk (ℕ × List Text)) (path : Text) (visited paths : List Text)
      → disk.read_dir path ≡ err denied
      → walk_directory disk options called walk path visited (state paths)
        ≡ some (visited, state paths, none)
  unfolding walk_directory
  locked-Gives walk path visited paths no_read =
      rw (walk_directory, no_read)
        (skip_or_report-denied called path (info_of (disk.lstat path)) visited (state paths))

  cycle-Gives :
      (walk : Walk (ℕ × List Text)) (path target real : Text) (info : Info)
      (visited paths : List Text)
      → disk.readlink path ≡ ok target
      → disk.abs path ≡ ok real
      → disk.eval_symlinks path ≡ err too_many_links
      → handle_symlink disk options called walk path info visited (state paths)
        ≡ some (visited, state paths, none)
  unfolding handle_symlink resolve_link is_too_many_links
  cycle-Gives walk path target real info visited paths reads at loops =
      elim (Bool-cases
        (text_eq (disk.clean real) (disk.clean (abs_link_target disk real target)))) [
          | inl self ↦ rw (handle_symlink, reads, at, self) refl
          | inr else_where ↦ rw (handle_symlink, reads, at, else_where, resolve_link, loops) refl
        ]

  module _ (f : ℕ) (path : Text) (info : Info) (visited paths : List Text) where
    symwalk-dir :
        info.is_symlink ≡ false
        → info.is_dir ≡ true
        → symwalk disk options called (suc f) path info visited (state paths)
          ≡ walk_directory disk options called
              (symwalk disk options called f)
              path
              visited
              (state paths)
    unfolding symwalk
    symwalk-dir plain dir =
        elim (Bool-cases (options.skip_empty_files && (not info.is_dir && info.size == 0))) [
          | inl e ↦ absurd (ground arith)
          | inr e ↦
              rw (symwalk, plain, e)
                (descend-dir (symwalk disk options called f) path info visited paths dir)
        ]

    symwalk-file :
        (real : Text) (size : ℕ)
        → info.is_symlink ≡ false
        → info.is_dir ≡ false
        → info.size ≡ size
        → disk.abs path ≡ ok real
        → IsCapped paths
        → Gives visited
            (with_new paths (files_of options.skip_empty_files (file real size)))
            (symwalk disk options called (suc f) path info visited (state paths))
    unfolding symwalk files_of
    symwalk-file real size plain no_dir sized at capped =
        elim (Bool-cases (options.skip_empty_files && size == 0)) [
          | inl empty ↦
              rw (symwalk, plain, no_dir, sized, empty, with_new-nil paths capped) (inl refl)
          | inr kept ↦
              rw (symwalk, plain, no_dir, sized, kept)
                (file-Gives (symwalk disk options called f) path real info visited paths no_dir at
                  capped)
        ]

    symwalk-link :
        info.is_symlink ≡ true
        → symwalk disk options called (suc f) path info visited (state paths)
          ≡ handle_symlink disk options called
              (symwalk disk options called f)
              path
              info
              visited
              (state paths)
    unfolding symwalk
    symwalk-link link = elim (Bool-cases (info.is_symlink && options.follow_symlinks)) [
      | inl e ↦ rw (symwalk, e) refl
      | inr e ↦ absurd (ground arith)
    ]

  mutual
    unfolding depth files_of Shows symwalk descend walk_directory walk_entries process_entry

    tree-Gives :
        (t : Tree) (f : ℕ) (path : Text) (info : Info)
        → depth t ≤ suc f
        → Shows disk t path info
        → Lists (symwalk disk options called (suc f)) t path info
    tree-Gives (file real size) f path info h s visited paths capped =
        symwalk-file f path info visited paths real size s.1 s.0 s.2 s.3 capped
    tree-Gives (folder trees) zero path info h s visited paths capped =
        absurd (omega (arith, depth_all_pos trees))
    tree-Gives (folder trees) (suc f) path info h s visited paths capped =
        rw (symwalk-dir (suc f) path info visited paths s.1 s.0, walk_directory, s.3)
          (forest-Gives trees f path (disk.sort s.2) (omega arith) s.4 visited paths capped)
    tree-Gives locked f path info h s visited paths capped =
        rw (symwalk-dir f path info visited paths s.1 s.0, with_new-nil paths capped)
          (inl (locked-Gives (symwalk disk options called f) path visited paths s.2))
    tree-Gives cycle f path info h (link, target, reads, real, at, loops) visited paths capped =
        rw (symwalk-link f path info visited paths link, with_new-nil paths capped)
          (inl (
            cycle-Gives (symwalk disk options called f) path target real info visited paths reads at
              loops))

    forest-Gives :
        (ts : Forest) (f : ℕ) (path : Text) (es : List Entry)
        → depth_all ts ≤ suc f
        → ShowsAll disk ts path es
        → (visited paths : List Text) → IsCapped paths
        → Gives visited (with_new paths (files_of_all options.skip_empty_files ts)) (
            walk_entries disk options called
              (symwalk disk options called (suc f))
              path
              es
              visited
              (state paths))
    forest-Gives nil f path es h s visited paths capped =
        rw (s, with_new-nil paths capped) (inl refl)
    forest-Gives (cons t ts) f path es h (e, rest, info, eq, at, here, there) visited paths capped =
        rw eq (
          and_then-Gives visited paths (files_of options.skip_empty_files t)
            (files_of_all options.skip_empty_files ts)
            (process_entry disk options called (symwalk disk options called (suc f)) e
              (disk.join path e.name) visited (state paths))
            (walk_entries disk options called (symwalk disk options called (suc f)) path rest)
            (rw (process_entry, at)
              (Gives-after_entry info visited (with_new paths (files_of options.skip_empty_files t))
                (symwalk disk options called (suc f) (disk.join path e.name) info visited
                  (state paths))
                (tree-Gives t f (disk.join path e.name) info (omega arith) here visited paths
                  capped)))
            (forest-Gives ts f path rest (omega arith) there visited
              (with_new paths (files_of options.skip_empty_files t))
              (cap-cap most (paths ++ files_of options.skip_empty_files t))))

  sym_walk-files_of :
      (t : Tree) (root : Text) (info : Info) (fuel : ℕ)
      → disk.lstat root ≡ ok info
      → Shows disk t root info
      → depth t ≤ suc fuel
      → sym_walk disk options called (suc fuel) root (state [])
        ≡ some ([], state (cap most (files_of options.skip_empty_files t)), none)
  unfolding sym_walk
  sym_walk-files_of t root info fuel at s h =
      rw (sym_walk, at)
        (Gives-drop_skip_dir [] (cap most (files_of options.skip_empty_files t))
          (symwalk disk options called (suc fuel) root info [] (state []))
          (tree-Gives t fuel root info h s [] [] (cap-nil most)))

  -- With the options to follow links and to skip permission errors: where the disk shows a tree,
  -- GetAllFilePaths lists its files from left to right, without the empty ones if these are
  -- skipped, and of them as many as the limit allows; directories that cannot be read and links
  -- that lead back to themselves are passed over. It needs no more rounds than the tree is deep,
  -- and no error comes back, also where the limit is met.
  pub get_all_file_paths-files_of :
      (t : Tree) (root : Text) (info : Info) (fuel : ℕ)
      → disk.lstat root ≡ ok info
      → Shows disk t root info
      → depth t ≤ suc fuel
      → get_all_file_paths disk options (suc fuel) root
        ≡ some (ok (cap options.max_files (files_of options.skip_empty_files t)))
  unfolding get_all_file_paths walk_file_paths
  get_all_file_paths-files_of t root info fuel at s h =
      ap listed (sym_walk-files_of t root info fuel at s h)
