-- ===== src/SymWalk/Tree.antt =====
-- Trees as a disk shows them to the walk of pkg/utils/symwalk.go, and what there is to list in
-- them.
use Prim.Native.Nat.{max}
use co_scout.Prelude.{
  ℕ, zero, suc, ◌≤◌, ◌≡◌, refl, sym, ap, ◌∙◌, Bool, true, false, ◌&&◌, List, [], ◌∷◌, ◌++◌,
  if◌then◌else◌, Text, ltb, leb, ◌==◌, arith, Bool-cases, inl, inr, length, take, length-append,
  append-nil, take_all,
}
use co_scout.SymWalk.{Disk, Info, Entry, ok, err, denied, too_many_links, entry_info}

-- A part of the disk: a file with its absolute path and size, a directory, a directory that cannot
-- be read, or a link that leads back to itself.
mutual
  pub data Tree : Type 0 where
    file : Text → ℕ → Tree
    folder : Forest → Tree
    locked cycle : Tree

  pub data Forest : Type 0 where
    nil : Forest
    cons : Tree → Forest → Forest

unfoldable mutual
  pub depth : Tree → ℕ
  depth (file path size) = 1
  depth (folder trees) = suc (depth_all trees)
  depth locked = 1
  depth cycle = 1

  pub depth_all : Forest → ℕ
  depth_all nil = 1
  depth_all (cons t ts) = max (depth t) (depth_all ts)

pub depth_all_pos : (ts : Forest) → 1 ≤ depth_all ts
unfolding depth_all
depth_all_pos nil = omega arith
depth_all_pos (cons t ts) = omega (arith, depth_all_pos ts)

-- The files of a tree from left to right, without the empty ones if these are skipped.
unfoldable mutual
  pub files_of : Bool → Tree → List Text
  files_of skip (file path size) = if skip && size == 0 then [] else path ∷ []
  files_of skip (folder trees) = files_of_all skip trees
  files_of skip locked = []
  files_of skip cycle = []

  pub files_of_all : Bool → Forest → List Text
  files_of_all skip nil = []
  files_of_all skip (cons t ts) = files_of skip t ++ files_of_all skip ts

-- The disk has the tree at the path, where Lstat gives the info.
unfoldable mutual
  pub Shows : Disk → Tree → Text → Info → Type 0
  Shows disk (file real size) path info =
      (info.is_dir ≡ false)
      × (info.is_symlink ≡ false)
      × (info.size ≡ size)
      × (disk.abs path ≡ ok real)
  Shows disk (folder trees) path info =
      (info.is_dir ≡ true)
      × (info.is_symlink ≡ false)
      × (es : List Entry) × (disk.read_dir path ≡ ok es)
      × ShowsAll disk trees path (disk.sort es)
  Shows disk locked path info =
      (info.is_dir ≡ true) × (info.is_symlink ≡ false) × (disk.read_dir path ≡ err denied)
  Shows disk cycle path info =
      (info.is_symlink ≡ true)
      × (target : Text) × (disk.readlink path ≡ ok target)
      × (real : Text) × (disk.abs path ≡ ok real)
      × (disk.eval_symlinks path ≡ err too_many_links)

  pub ShowsAll : Disk → Forest → Text → List Entry → Type 0
  ShowsAll disk nil path es = es ≡ []
  ShowsAll disk (cons t ts) path es =
      (e : Entry) × (rest : List Entry) × (info : Info) × (es ≡ e ∷ rest)
      × (entry_info disk e (disk.join path e.name) ≡ ok info)
      × Shows disk t (disk.join path e.name) info
      × ShowsAll disk ts path rest

-- The first files, as many as are allowed; 0 is no limit.
unfoldable pub cap : ℕ → List Text → List Text
cap most xs = if ltb 0 most then take most xs else xs

pub cap-nil : (most : ℕ) → cap most [] ≡ []
unfolding cap
cap-nil zero = refl
cap-nil (suc n) = ground arith

take-take_append : (n : ℕ) (xs ys : List Text) → take n (take n xs ++ ys) ≡ take n (xs ++ ys)
take-take_append zero xs ys = refl
take-take_append (suc n) [] ys = refl
take-take_append (suc n) (x ∷ xs) ys = ap (◌∷◌ x) (take-take_append n xs ys)

pub cap-cap_append :
    (most : ℕ) (xs ys : List Text) → cap most (cap most xs ++ ys) ≡ cap most (xs ++ ys)
unfolding cap
cap-cap_append most xs ys = elim (Bool-cases (ltb 0 most)) [
  | inl e ↦ rw e (take-take_append most xs ys)
  | inr e ↦ rw e refl
]

pub cap-cap : (most : ℕ) (xs : List Text) → cap most (cap most xs) ≡ cap most xs
cap-cap most xs =
    ap (cap most) (sym (append-nil (cap most xs)))
    ∙ cap-cap_append most xs []
    ∙ ap (cap most) (append-nil xs)

take_full : (n : ℕ) (xs ys : List Text) → n ≤ length xs → take n (xs ++ ys) ≡ take n xs
take_full zero xs ys h = refl
take_full (suc n) [] ys h = absurd (omega arith)
take_full (suc n) (x ∷ xs) ys h = ap (◌∷◌ x) (take_full n xs ys (omega arith))

abbrev pub is_full : ℕ → List Text → Bool
is_full most xs = ltb 0 most && leb most (length xs)

pub cap_full :
    (most : ℕ) (xs ys : List Text) → is_full most xs ≡ true → cap most (xs ++ ys) ≡ cap most xs
unfolding cap
cap_full most xs ys h = elim (Bool-cases (ltb 0 most)) [
  | inl e ↦ rw e (take_full most xs ys (ground arith))
  | inr e ↦ rw e (ground arith)
]

pub cap_room :
    (most : ℕ) (xs : List Text) (y : Text)
    → is_full most xs ≡ false
    → cap most (xs ++ y ∷ []) ≡ xs ++ y ∷ []
unfolding cap
cap_room most xs y h = elim (Bool-cases (ltb 0 most)) [
  | inl e ↦ rw e (take_all most (xs ++ y ∷ []) (ground (arith, length-append {0} xs (y ∷ []))))
  | inr e ↦ rw e refl
]
