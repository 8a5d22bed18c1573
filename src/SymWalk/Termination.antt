-- ===== src/SymWalk/Termination.antt =====
-- The walk of pkg/utils/symwalk.go ends on every finite disk, whatever cycles its links make.
use co_scout.Prelude.{
  ℕ, zero, suc, ◌+◌, ◌*◌, ◌≤◌, ◌≡◌, refl, true, not, ◌&&◌, List, [], ◌∷◌, Option, none, some,
  if◌then◌else◌, Text, text_eq, ◌==◌, arith, Bool-cases, inl, inr, All, length, is_some,
}
use co_scout.SymWalk.{
  Disk, SymWalkOptions, Info, Entry, ok, Outcome, Walk, WalkFunc, WalkError, is_visited, and_then,
  drop_skip_dir, report, skip_or_report, walk_resolved, enter_link, resolve_link, handle_symlink,
  is_permission_error, is_too_many_links, info_of, abs_link_target, after_entry, entry_info,
  process_entry, walk_entries, walk_directory, descend, symwalk, sym_walk, entry,
}
use co_scout.SymWalk.Finite.{
  IsFinite, unvisited, unvisited-lt, unvisited-le_length, Ends, Ends-le, Ends-drop_skip_dir,
  Answer-cases, All-implies, mul_step, mul_mono,
}

module _ {W : Type 0} (disk : Disk) (options : SymWalkOptions) (walk_fn : WalkFunc W)
    (targets : List Text) (bound : ℕ) (finite : IsFinite disk targets bound) where
  abbrev left : List Text → ℕ
  left visited = unvisited targets visited

  -- The depth of recursion that is enough for a path.
  need : Text → Info → ℕ → ℕ
  need path info u = u * (bound + 2) + (if info.is_dir then finite.height path + 2 else 1)

  need-le : (path : Text) (info : Info) (u : ℕ) → need path info u ≤ u * (bound + 2) + (bound + 2)
  unfolding need
  need-le path info u = ground (arith, finite.bounded path)

  need_mono : (path : Text) (info : Info) (u v : ℕ) → u ≤ v → need path info u ≤ need path info v
  unfolding need
  need_mono path info u v h = omega (arith, mul_mono u v (bound + 2) h)

  abbrev IsGood : Walk W → ℕ → Type 0
  IsGood walk f =
      (path : Text) (info : Info) (visited : List Text) (w : W)
      → need path info (left visited) ≤ f
      → Ends targets (left visited) (walk path info visited w)

  skip_or_report-Ends :
      (path : Text) (info : Option Info) (e : WalkError) (visited : List Text) (w : W)
      → Ends targets (left visited) (skip_or_report disk options walk_fn path info e visited w)
  unfolding skip_or_report report
  skip_or_report-Ends path info e visited w =
      elim (Bool-cases (options.skip_permission_errors && is_permission_error e)) [
        | inl h ↦ rw h (omega arith)
        | inr h ↦ rw h (omega arith)
      ]

  module _ (walk : Walk W) (f : ℕ) (good : IsGood walk f) where
    walk_resolved-Ends :
        (path resolved : Text) (visited : List Text) (w : W)
        → left visited * (bound + 2) + (bound + 2) ≤ f
        → Ends targets
            (left visited)
            (walk_resolved disk options walk_fn walk path resolved visited w)
    unfolding walk_resolved
    walk_resolved-Ends path resolved visited w h = elim (Answer-cases (disk.lstat resolved)) [
      | inl (e, eq) ↦ rw (walk_resolved, eq) (skip_or_report-Ends path none e visited w)
      | inr (info, eq) ↦
          rw (walk_resolved, eq)
            (Ends-drop_skip_dir targets (left visited) (walk path info visited w)
              (good path info visited w (omega (arith, need-le path info (left visited)))))
    ]

    enter_link-Ends :
        (path resolved : Text) (info : Info) (visited : List Text) (w : W)
        → disk.eval_symlinks path ≡ ok resolved
        → left visited * (bound + 2) ≤ f
        → Ends targets
            (left visited)
            (enter_link disk options walk_fn walk path info resolved visited w)
    unfolding enter_link
    enter_link-Ends path resolved info visited w ev h = elim (Answer-cases (disk.abs resolved)) [
      | inl (e, eq) ↦ rw (enter_link, eq) (omega arith)
      | inr (real, eq) ↦ elim (Bool-cases (is_visited real visited)) [
        | inl seen ↦ rw (enter_link, eq, seen) (omega arith)
        | inr new ↦
            let less =
              unvisited-lt targets visited real (finite.resolved path resolved real ev eq) new in
            rw (enter_link, eq, new)
              (Ends-le targets (left (real ∷ visited)) (left visited)
                (walk_resolved disk options walk_fn walk path resolved (real ∷ visited) w)
                (omega arith)
                (walk_resolved-Ends path resolved (real ∷ visited) w
                  (mul_step (left (real ∷ visited)) (left visited) (bound + 2) f less h)))
      ]
    ]

    resolve_link-Ends :
        (path : Text) (info : Info) (visited : List Text) (w : W)
        → left visited * (bound + 2) ≤ f
        → Ends targets (left visited) (resolve_link disk options walk_fn walk path info visited w)
    unfolding resolve_link
    resolve_link-Ends path info visited w h = elim (Answer-cases (disk.eval_symlinks path)) [
      | inl (e, eq) ↦ elim (Bool-cases (is_too_many_links e)) [
        | inl many ↦ rw (resolve_link, eq, many) (omega arith)
        | inr few ↦ rw (resolve_link, eq, few) (skip_or_report-Ends path (some info) e visited w)
      ]
      | inr (resolved, eq) ↦
          rw (resolve_link, eq) (enter_link-Ends path resolved info visited w eq h)
    ]

    handle_symlink-Ends :
        (path : Text) (info : Info) (visited : List Text) (w : W)
        → left visited * (bound + 2) ≤ f
        → Ends targets (left visited) (handle_symlink disk options walk_fn walk path info visited w)
    unfolding handle_symlink
    handle_symlink-Ends path info visited w h = elim (Answer-cases (disk.readlink path)) [
      | inl (e, eq) ↦ rw (handle_symlink, eq) (skip_or_report-Ends path (some info) e visited w)
      | inr (target, eq) ↦ elim (Answer-cases (disk.abs path)) [
        | inl (e, eq') ↦ rw (handle_symlink, eq, eq') (omega arith)
        | inr (a, eq') ↦
            elim (Bool-cases
              (text_eq (disk.clean a) (disk.clean (abs_link_target disk a target)))) [
                | inl self ↦ rw (handle_symlink, eq, eq', self) (omega arith)
                | inr else_where ↦
                    rw (handle_symlink, eq, eq', else_where)
                      (resolve_link-Ends path info visited w h)
              ]
      ]
    ]

    after_entry-Ends :
        (i : Info) (u : ℕ) (r : Outcome W) → Ends targets u r → Ends targets u (after_entry i r)
    unfolding after_entry
    after_entry-Ends i u r h = elim (Bool-cases (not i.is_dir && not i.is_symlink)) [
      | inl e ↦ rw e h
      | inr e ↦ rw e (Ends-drop_skip_dir targets u r h)
    ]

    process_entry-Ends :
        (e : Entry) (filename : Text) (visited : List Text) (w : W)
        → ((i : Info) → entry_info disk e filename ≡ ok i → need filename i (left visited) ≤ f)
        → Ends targets (left visited) (process_entry disk options walk_fn walk e filename visited w)
    unfolding process_entry
    process_entry-Ends e filename visited w h = elim (Answer-cases (entry_info disk e filename)) [
      | inl (x, eq) ↦
          rw (process_entry, eq)
            (Ends-drop_skip_dir targets (left visited)
              (skip_or_report disk options walk_fn filename none x visited w)
              (skip_or_report-Ends filename none x visited w))
      | inr (i, eq) ↦
          rw (process_entry, eq)
            (after_entry-Ends i (left visited) (walk filename i visited w)
              (good filename i visited w (h i eq)))
    ]

    and_then-Ends :
        (u : ℕ) (r : Outcome W) (k : List Text → W → Outcome W)
        → Ends targets u r
        → ((visited : List Text) (w : W)
            → left visited ≤ u
            → Ends targets (left visited) (k visited w))
        → Ends targets u (and_then r k)
    unfolding and_then
    and_then-Ends u none k h g = h
    and_then-Ends u (some (visited, w, none)) k h g =
        Ends-le targets (left visited) u (k visited w) h (g visited w h)
    and_then-Ends u (some (visited, w, some e)) k h g = h

    walk_entries-Ends :
        (path : Text) (es : List Entry) (u : ℕ) (visited : List Text) (w : W)
        → left visited ≤ u
        → All
            (λ (e : Entry).
              (i : Info)
              → entry_info disk e (disk.join path e.name) ≡ ok i
              → need (disk.join path e.name) i u ≤ f)
            es
        → Ends targets (left visited) (walk_entries disk options walk_fn walk path es visited w)
    unfolding walk_entries
    walk_entries-Ends path [] u visited w le h = omega arith
    walk_entries-Ends path (e ∷ es) u visited w le h =
        and_then-Ends (left visited)
          (process_entry disk options walk_fn walk e (disk.join path e.name) visited w)
          (walk_entries disk options walk_fn walk path es)
          (process_entry-Ends e (disk.join path e.name) visited w (λ i eq.
            omega (arith, need_mono (disk.join path e.name) i (left visited) u le, h.0 i eq)))
          (λ visited' w' le'. walk_entries-Ends path es u visited' w' (omega arith) h.1)

    walk_directory-Ends :
        (path : Text) (visited : List Text) (w : W)
        → left visited * (bound + 2) + suc (finite.height path) ≤ f
        → Ends targets (left visited) (walk_directory disk options walk_fn walk path visited w)
    unfolding walk_directory need
    walk_directory-Ends path visited w h = elim (Answer-cases (disk.read_dir path)) [
      | inl (e, eq) ↦
          rw (walk_directory, eq) (skip_or_report-Ends path (info_of (disk.lstat path)) e visited w)
      | inr (es, eq) ↦
          rw (walk_directory, eq)
            (walk_entries-Ends path (disk.sort es) (left visited) visited w (omega arith) (
              All-implies (lower path) (shallow path visited) (disk.sort es)
                (λ e low i at_info.
                  child (disk.join path e.name) i (left visited) (finite.height path)
                    (low i at_info) h)
                (finite.lower path es eq)))
    ]
      where
        lower : Text → Entry → Type 0
        lower path e =
            (i : Info)
            → entry_info disk e (disk.join path e.name) ≡ ok i
            → i.is_dir ≡ true
            → suc (finite.height (disk.join path e.name)) ≤ finite.height path

        shallow : Text → List Text → Entry → Type 0
        shallow path visited e =
            (i : Info)
            → entry_info disk e (disk.join path e.name) ≡ ok i
            → need (disk.join path e.name) i (left visited) ≤ f

        child :
            (filename : Text) (i : Info) (u h : ℕ)
            → (i.is_dir ≡ true → suc (finite.height filename) ≤ h)
            → u * (bound + 2) + suc h ≤ f
            → need filename i u ≤ f
        child filename i u h low le = elim (Bool-cases i.is_dir) [
          | inl dir ↦ let lt = low dir in ground arith
          | inr file ↦ ground arith
        ]

    descend-Ends :
        (path : Text) (info : Info) (visited : List Text) (called : W × Option WalkError)
        → need path info (left visited) ≤ suc f
        → Ends targets (left visited) (descend disk options walk_fn walk path info visited called)
    unfolding descend need
    descend-Ends path info visited (w, some e) h = omega arith
    descend-Ends path info visited (w, none) h = elim (Bool-cases info.is_dir) [
      | inl dir ↦ rw (descend, dir) (walk_directory-Ends path visited w (ground arith))
      | inr file ↦ rw (descend, file) (omega arith)
    ]

  symwalk-Ends : (f : ℕ) → IsGood (symwalk disk options walk_fn f) f
  unfolding symwalk need
  symwalk-Ends zero path info visited w h = absurd (ground arith)
  symwalk-Ends (suc f) path info visited w h =
      elim (Bool-cases (info.is_symlink && options.follow_symlinks)) [
        | inl link ↦
            rw (symwalk, link)
              (handle_symlink-Ends (symwalk disk options walk_fn f) f (symwalk-Ends f) path info
                visited w (ground arith))
        | inr plain ↦
            elim (Bool-cases (options.skip_empty_files && (not info.is_dir && info.size == 0))) [
              | inl empty ↦ rw (symwalk, plain, empty) (omega arith)
              | inr kept ↦
                  rw (symwalk, plain, kept)
                    (descend-Ends (symwalk disk options walk_fn f) f (symwalk-Ends f) path info
                      visited (walk_fn path (entry info) w) h)
            ]
      ]

  -- On a finite disk the walk ends, whatever cycles the links make and whatever the callback does:
  -- the number of real paths that links lead to and the height of the directories bound how deep it
  -- goes.
  pub sym_walk-returns :
      (root : Text) (fuel : ℕ) (w : W)
      → suc (length targets) * (bound + 2) ≤ fuel
      → is_some (sym_walk disk options walk_fn fuel root w) ≡ true
  unfolding sym_walk
  sym_walk-returns root fuel w h = elim (Answer-cases (disk.lstat root)) [
    | inl (e, eq) ↦
        rw (sym_walk, eq)
          (Ends-is_some (left [])
            (drop_skip_dir (skip_or_report disk options walk_fn root none e [] w))
            (Ends-drop_skip_dir targets (left [])
              (skip_or_report disk options walk_fn root none e [] w)
              (skip_or_report-Ends root none e [] w)))
    | inr (info, eq) ↦
        rw (sym_walk, eq)
          (Ends-is_some (left []) (drop_skip_dir (symwalk disk options walk_fn fuel root info [] w))
            (Ends-drop_skip_dir targets (left []) (symwalk disk options walk_fn fuel root info [] w)
              (symwalk-Ends fuel root info [] w (
                omega (
                  arith,
                  need-le root info (left []),
                  mul_step (left []) (suc (length targets)) (bound + 2)
                      (suc (length targets) * (bound + 2))
                      (omega (arith, unvisited-le_length targets [])) (omega arith),
                )))))
  ]
    where
      Ends-is_some : (u : ℕ) (r : Outcome W) → Ends targets u r → is_some r ≡ true
      Ends-is_some u none h = absurd h
      Ends-is_some u (some r) h = refl
