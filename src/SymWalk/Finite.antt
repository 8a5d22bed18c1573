-- ===== src/SymWalk/Finite.antt =====
-- Finite disks, and what of their links a walk has not visited yet (pkg/utils/symwalk.go).
use co_scout.Prelude.{
  ℕ, suc, ◌+◌, ◌*◌, ◌≤◌, ◌≡◌, ◌⊎◌, refl, true, false, List, [], ◌∷◌, none, some, if◌then◌else◌,
  Text, text_eq, text_eq_iff, arith, Bool-cases, inl, inr, All, length,
}
use co_scout.SymWalk.{
  Disk, Info, Entry, Answer, ok, err, Outcome, WalkError, is_visited, drop_skip_dir, entry_info,
}

-- How many of the real paths that links lead to are still to be visited.
unfoldable pub unvisited : List Text → List Text → ℕ
unvisited [] visited = 0
unvisited (t ∷ ts) visited =
    let rest = unvisited ts visited in if is_visited t visited then rest else rest + 1

pub unvisited-le :
    (ts visited : List Text) (p : Text) → unvisited ts (p ∷ visited) ≤ unvisited ts visited
unfolding unvisited is_visited
unvisited-le [] visited p = omega arith
unvisited-le (t ∷ ts) visited p = ground (arith, unvisited-le ts visited p)

pub unvisited-lt :
    (ts visited : List Text) (p : Text)
    → is_visited p ts ≡ true
    → is_visited p visited ≡ false
    → suc (unvisited ts (p ∷ visited)) ≤ unvisited ts visited
unfolding unvisited is_visited
unvisited-lt [] visited p h n = cc
unvisited-lt (t ∷ ts) visited p h n = elim (Bool-cases (text_eq t p)) [
  | inl e ↦
      let q : t ≡ p = (text_eq_iff t p).0 e in
      rw q (ground (arith, n, unvisited-le ts visited p, (text_eq_iff p p).1 refl))
  | inr e ↦ ground (arith, unvisited-lt ts visited p, text_eq_iff p t, text_eq_iff t p)
]

pub unvisited-le_length : (ts visited : List Text) → unvisited ts visited ≤ length ts
unfolding unvisited
unvisited-le_length [] visited = omega arith
unvisited-le_length (t ∷ ts) visited = ground (arith, unvisited-le_length ts visited)

-- The links lead to finitely many real paths, and every directory that a
-- directory holds, seen through whatever links, is less high.
pub record IsFinite (disk : Disk) (targets : List Text) (bound : ℕ) : Type 0 where
  pub height : Text → ℕ
  pub bounded : (p : Text) → height p ≤ bound
  pub resolved :
      (p r real : Text)
      → disk.eval_symlinks p ≡ ok r
      → disk.abs r ≡ ok real
      → is_visited real targets ≡ true
  pub lower :
      (p : Text) (es : List Entry)
      → disk.read_dir p ≡ ok es
      → All
          (λ (e : Entry).
            (i : Info)
            → entry_info disk e (disk.join p e.name) ≡ ok i
            → i.is_dir ≡ true
            → suc (height (disk.join p e.name)) ≤ height p)
          (disk.sort es)

module _ {W : Type 0} (targets : List Text) where
  -- The walk has ended, and no path was taken off the visited ones.
  abbrev pub Ends : ℕ → Outcome W → Type 0
  Ends u none = ⊥
  Ends u (some (visited, w, e)) = unvisited targets visited ≤ u

  pub Ends-le : (u v : ℕ) (r : Outcome W) → u ≤ v → Ends u r → Ends v r
  Ends-le u v none le h = h
  Ends-le u v (some (visited, w, e)) le h = omega arith

  pub Ends-drop_skip_dir : (u : ℕ) (r : Outcome W) → Ends u r → Ends u (drop_skip_dir r)
  unfolding drop_skip_dir
  Ends-drop_skip_dir u none h = h
  Ends-drop_skip_dir u (some (visited, w, none)) h = h
  Ends-drop_skip_dir u (some (visited, w, some e)) h = h

pub Answer-cases :
    {A : Type 0} (r : Answer A) → ((e : WalkError) × (r ≡ err e)) ⊎ ((a : A) × (r ≡ ok a))
Answer-cases (ok a) = inr (a, refl)
Answer-cases (err e) = inl (e, refl)

pub All-implies :
    {A : Type 0} (P Q : A → Type 0) (xs : List A) → ((a : A) → P a → Q a) → All P xs → All Q xs
All-implies P Q [] f h = h
All-implies P Q (x ∷ xs) f h = (f x h.0, All-implies P Q xs f h.1)

pub mul_step : (a b k f : ℕ) → suc a ≤ b → b * k ≤ f → a * k + k ≤ f
mul_step a b k f h g = grind arith

pub mul_mono : (a b k : ℕ) → a ≤ b → a * k ≤ b * k
mul_mono a b k h = grind arith
