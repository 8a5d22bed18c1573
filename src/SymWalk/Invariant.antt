-- ===== src/SymWalk/Invariant.antt =====
-- What the callback of the walk of pkg/utils/symwalk.go keeps, the walk keeps, on any disk and with
-- any fuel.
use co_scout.Prelude.{
  ℕ, zero, suc, not, ◌&&◌, List, [], ◌∷◌, Option, none, some, Text, text_eq, ◌==◌, ltb, leb, Bool,
  true, false, Bool-cases, inl, inr,
}
use co_scout.SymWalk.{
  Disk, SymWalkOptions, Info, Entry, Answer, ok, err, Outcome, Walk, WalkFunc, WalkError,
  is_visited, and_then, drop_skip_dir, report, skip_or_report, walk_resolved, enter_link,
  resolve_link, handle_symlink, is_permission_error, is_too_many_links, info_of, abs_link_target,
  after_entry, entry_info, process_entry, walk_entries, walk_directory, descend, symwalk, sym_walk,
  entry, failed, Seen, file_walk_fn, walk_file_paths, limited,
}
use co_scout.SymWalk.Finite.{Answer-cases}

module _ {W : Type 0} (I : W → Type 0) where
  abbrev pub Holds : Outcome W → Type 0
  Holds none = Unit {0}
  Holds (some (visited, w, e)) = I w

  drop_skip_dir-Holds : (r : Outcome W) → Holds r → Holds (drop_skip_dir r)
  unfolding drop_skip_dir
  drop_skip_dir-Holds none h = h
  drop_skip_dir-Holds (some (visited, w, none)) h = h
  drop_skip_dir-Holds (some (visited, w, some e)) h = h

  after_entry-Holds : (i : Info) (r : Outcome W) → Holds r → Holds (after_entry i r)
  unfolding after_entry
  after_entry-Holds i r h = elim (Bool-cases (not i.is_dir && not i.is_symlink)) [
    | inl e ↦ rw e h
    | inr e ↦ rw e (drop_skip_dir-Holds r h)
  ]

  and_then-Holds :
      (r : Outcome W) (k : List Text → W → Outcome W)
      → Holds r
      → ((visited : List Text) (w : W) → I w → Holds (k visited w))
      → Holds (and_then r k)
  unfolding and_then
  and_then-Holds none k h g = h
  and_then-Holds (some (visited, w, none)) k h g = g visited w h
  and_then-Holds (some (visited, w, some e)) k h g = h

  module _ (disk : Disk) (options : SymWalkOptions) (walk_fn : WalkFunc W)
      (kept : (path : Text) (seen : Seen) (w : W) → I w → I (walk_fn path seen w).0) where
    skip_or_report-Holds :
        (path : Text) (info : Option Info) (e : WalkError) (visited : List Text) (w : W)
        → I w
        → Holds (skip_or_report disk options walk_fn path info e visited w)
    unfolding skip_or_report report
    skip_or_report-Holds path info e visited w h =
        elim (Bool-cases (options.skip_permission_errors && is_permission_error e)) [
          | inl skips ↦ rw skips h
          | inr reports ↦ rw reports (kept path (failed info e) w h)
        ]

    abbrev IsKeeping : Walk W → Type 0
    IsKeeping walk =
        (path : Text) (info : Info) (visited : List Text) (w : W)
        → I w
        → Holds (walk path info visited w)

    module _ (walk : Walk W) (keeping : IsKeeping walk) where
      resolved_at :
          (path : Text) (visited : List Text) (w : W) (a : Answer Info)
          → I w
          → Holds (elim a [
            | err e ↦ skip_or_report disk options walk_fn path none e visited w
            | ok info ↦ drop_skip_dir (walk path info visited w)
          ])
      resolved_at path visited w (err e) h = skip_or_report-Holds path none e visited w h
      resolved_at path visited w (ok info) h =
          drop_skip_dir-Holds (walk path info visited w) (keeping path info visited w h)

      enter_link-Holds :
          (path resolved : Text) (info : Info) (visited : List Text) (w : W)
          → I w
          → Holds (enter_link disk options walk_fn walk path info resolved visited w)
      unfolding enter_link report walk_resolved
      enter_link-Holds path resolved info visited w h = elim (Answer-cases (disk.abs resolved)) [
        | inl (e, eq) ↦ rw (enter_link, eq) (kept path (failed (some info) e) w h)
        | inr (real, eq) ↦ elim (Bool-cases (is_visited real visited)) [
          | inl seen ↦ rw (enter_link, eq, seen) h
          | inr new ↦
              rw (enter_link, eq, new) (resolved_at path (real ∷ visited) w (disk.lstat resolved) h)
        ]
      ]

      resolve_link-Holds :
          (path : Text) (info : Info) (visited : List Text) (w : W)
          → I w
          → Holds (resolve_link disk options walk_fn walk path info visited w)
      unfolding resolve_link
      resolve_link-Holds path info visited w h = elim (Answer-cases (disk.eval_symlinks path)) [
        | inl (e, eq) ↦ elim (Bool-cases (is_too_many_links e)) [
          | inl many ↦ rw (resolve_link, eq, many) h
          | inr few ↦
              rw (resolve_link, eq, few) (skip_or_report-Holds path (some info) e visited w h)
        ]
        | inr (resolved, eq) ↦
            rw (resolve_link, eq) (enter_link-Holds path resolved info visited w h)
      ]

      handle_symlink-Holds :
          (path : Text) (info : Info) (visited : List Text) (w : W)
          → I w
          → Holds (handle_symlink disk options walk_fn walk path info visited w)
      unfolding handle_symlink report
      handle_symlink-Holds path info visited w h = elim (Answer-cases (disk.readlink path)) [
        | inl (e, eq) ↦
            rw (handle_symlink, eq) (skip_or_report-Holds path (some info) e visited w h)
        | inr (target, eq) ↦ elim (Answer-cases (disk.abs path)) [
          | inl (e, eq') ↦ rw (handle_symlink, eq, eq') (kept path (failed (some info) e) w h)
          | inr (a, eq') ↦
              elim (Bool-cases
                (text_eq (disk.clean a) (disk.clean (abs_link_target disk a target)))) [
                  | inl self ↦ rw (handle_symlink, eq, eq', self) h
                  | inr else_where ↦
                      rw (handle_symlink, eq, eq', else_where)
                        (resolve_link-Holds path info visited w h)
                ]
        ]
      ]

      process_entry-Holds :
          (e : Entry) (filename : Text) (visited : List Text) (w : W)
          → I w
          → Holds (process_entry disk options walk_fn walk e filename visited w)
      unfolding process_entry
      process_entry-Holds e filename visited w h =
          elim (Answer-cases (entry_info disk e filename)) [
            | inl (x, eq) ↦
                rw (process_entry, eq)
                  (drop_skip_dir-Holds
                    (skip_or_report disk options walk_fn filename none x visited w)
                    (skip_or_report-Holds filename none x visited w h))
            | inr (i, eq) ↦
                rw (process_entry, eq)
                  (after_entry-Holds i (walk filename i visited w) (keeping filename i visited w h))
          ]

      walk_entries-Holds :
          (path : Text) (es : List Entry) (visited : List Text) (w : W)
          → I w
          → Holds (walk_entries disk options walk_fn walk path es visited w)
      unfolding walk_entries
      walk_entries-Holds path [] visited w h = h
      walk_entries-Holds path (e ∷ es) visited w h =
          and_then-Holds
            (process_entry disk options walk_fn walk e (disk.join path e.name) visited w)
            (walk_entries disk options walk_fn walk path es)
            (process_entry-Holds e (disk.join path e.name) visited w h) (walk_entries-Holds path es)

      walk_directory-Holds :
          (path : Text) (visited : List Text) (w : W)
          → I w
          → Holds (walk_directory disk options walk_fn walk path visited w)
      unfolding walk_directory
      walk_directory-Holds path visited w h = elim (Answer-cases (disk.read_dir path)) [
        | inl (e, eq) ↦
            rw (walk_directory, eq)
              (skip_or_report-Holds path (info_of (disk.lstat path)) e visited w h)
        | inr (es, eq) ↦
            rw (walk_directory, eq) (walk_entries-Holds path (disk.sort es) visited w h)
      ]

      descend-Holds :
          (path : Text) (info : Info) (visited : List Text) (called : W × Option WalkError)
          → I called.0
          → Holds (descend disk options walk_fn walk path info visited called)
      unfolding descend
      descend-Holds path info visited (w, some e) h = h
      descend-Holds path info visited (w, none) h = elim (Bool-cases info.is_dir) [
        | inl dir ↦ rw (descend, dir) (walk_directory-Holds path visited w h)
        | inr file ↦ rw (descend, file) h
      ]

    symwalk-Holds : (f : ℕ) → IsKeeping (symwalk disk options walk_fn f)
    unfolding symwalk
    symwalk-Holds zero path info visited w h = tt
    symwalk-Holds (suc f) path info visited w h =
        elim (Bool-cases (info.is_symlink && options.follow_symlinks)) [
          | inl link ↦
              rw (symwalk, link)
                (handle_symlink-Holds (symwalk disk options walk_fn f) (symwalk-Holds f) path info
                  visited w h)
          | inr plain ↦
              elim (Bool-cases (options.skip_empty_files && (not info.is_dir && info.size == 0))) [
                | inl empty ↦ rw (symwalk, plain, empty) h
                | inr full ↦
                    rw (symwalk, plain, full)
                      (descend-Holds (symwalk disk options walk_fn f) (symwalk-Holds f) path info
                        visited (walk_fn path (entry info) w) (kept path (entry info) w h))
              ]
        ]

    pub sym_walk-Holds :
        (root : Text) (fuel : ℕ) (w : W) → I w → Holds (sym_walk disk options walk_fn fuel root w)
    unfolding sym_walk
    sym_walk-Holds root fuel w h = elim (Answer-cases (disk.lstat root)) [
      | inl (e, eq) ↦
          rw (sym_walk, eq)
            (drop_skip_dir-Holds (skip_or_report disk options walk_fn root none e [] w)
              (skip_or_report-Holds root none e [] w h))
      | inr (info, eq) ↦
          rw (sym_walk, eq)
            (drop_skip_dir-Holds (symwalk disk options walk_fn fuel root info [] w)
              (symwalk-Holds fuel root info [] w h))
    ]

module _ {U : Type 0} (I : U → Type 0) (disk : Disk) (options : SymWalkOptions)
    (user : Text → U → U × Option WalkError)
    (kept : (path : Text) (u : U) → I u → I (user path u).0) where
  limited-keeps :
      (full : Bool) (a : Answer Text) (s : ℕ × U)
      → I s.1
      → I (limited disk options full user a s).0.1
  unfolding limited
  limited-keeps true a s h = h
  limited-keeps false (err e) s h = h
  limited-keeps false (ok path) (count, u) h = kept path u h

  file_walk_fn-keeps :
      (path : Text) (seen : Seen) (s : ℕ × U)
      → I s.1
      → I (file_walk_fn disk options user path seen s).0.1
  unfolding file_walk_fn
  file_walk_fn-keeps path (failed info e) s h = h
  file_walk_fn-keeps path (entry info) s h = elim (Bool-cases info.is_dir) [
    | inl dir ↦ rw (file_walk_fn, dir) h
    | inr file ↦
        rw (file_walk_fn, file)
          (limited-keeps (ltb 0 options.max_files && leb options.max_files s.0) (disk.abs path) s h)
  ]

  -- What the callback of WalkFilePaths keeps holds of what it has gathered, also where the walk
  -- ends with an error.
  pub walk_file_paths-Holds :
      (fuel : ℕ) (root : Text) (u : U)
      → I u
      → Holds (λ (s : ℕ × U). I s.1) (walk_file_paths disk options fuel root user u)
  unfolding walk_file_paths
  walk_file_paths-Holds fuel root u h =
      sym_walk-Holds (λ (s : ℕ × U). I s.1) disk options (file_walk_fn disk options user)
        file_walk_fn-keeps root fuel (0, u) h
