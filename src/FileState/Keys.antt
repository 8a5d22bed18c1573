-- ===== src/FileState/Keys.antt =====
-- The states by the absolute paths of their files, after each way of storing one
-- (internal/mod/rule/file_state_handler/file_state_handler.go).
use co_scout.Prelude.{
  ℕ, ◌≡◌, ◌≢◌, refl, ap, ◌∙◌, Bool, true, false, List, [], ◌∷◌, Option, none, some, if◌then◌else◌,
  Text, text_eq, text_eq_iff, lookup, lookup-insert, arith, Bool-cases, Option-cases, inl, inr,
}
use co_scout.Prelude.Int.{ℤ}
use co_scout.FileState.{FileState, States, FileInfo, Handler, set_file_state, get_file_state}
use co_scout.FileState.Process.{process_listen_file, listened, store}
use co_scout.FileState.Stages.{IsKeyed, insert-IsKeyed, advanced, first_some, set_if, advance_all}

-- Absolute paths are clean: `Abs` leaves them alone.
module _ (abs : Text → Option Text) (handlers : List Handler) where
  abbrev pub Absolute : Type 0
  Absolute = (q a : Text) → abs q ≡ some a → abs a ≡ some a

  -- Whether a path leads to an absolute one.
  unfoldable pub leads_to : Text → Text → Bool
  leads_to q p = elim (abs q) [ none ↦ false | some a ↦ text_eq a p ]

  pub lookup-set_file_state :
      (m : States) (q p : Text) (s : FileState)
      → lookup p (set_file_state abs m q s) ≡ (if leads_to q p then some s else lookup p m)
  unfolding set_file_state leads_to
  lookup-set_file_state m q p s = elim (Option-cases (abs q)) [
    | inl e ↦ rw (set_file_state, leads_to, e) refl
    | inr (a, e) ↦ rw (set_file_state, leads_to, e) (lookup-insert a p s m)
  ]

  pub get_file_state_led :
      (m : States) (q p : Text) → leads_to q p ≡ true → get_file_state abs m q ≡ lookup p m
  unfolding get_file_state leads_to
  get_file_state_led m q p h = elim (Option-cases (abs q)) [
    | inl e ↦ ground arith
    | inr (a, e) ↦ ground (arith, text_eq_iff a p)
  ]

  pub set_file_state-IsKeyed :
      Absolute
      → (m : States) (q : Text) (s : FileState) → IsKeyed abs m
      → IsKeyed abs (set_file_state abs m q s)
  unfolding set_file_state
  set_file_state-IsKeyed clean m q s k = elim (Option-cases (abs q)) [
    | inl e ↦ rw (set_file_state, e) k
    | inr (a, e) ↦ rw (set_file_state, e) (insert-IsKeyed abs m a s (clean q a e) k)
  ]

  pub advance_all-IsKeyed :
      Absolute → (entries m : States) → IsKeyed abs m → IsKeyed abs (advance_all abs entries m)
  unfolding advance_all
  advance_all-IsKeyed clean [] m k = k
  advance_all-IsKeyed clean ((j, s) ∷ entries) m k =
      advance_all-IsKeyed clean entries (set_if abs m j (advanced s)) (set_one (advanced s))
    where
      set_one : (o : Option FileState) → IsKeyed abs (set_if abs m j o)
      set_one none = k
      set_one (some t) = set_file_state-IsKeyed clean m j t k

  pub lookup-store :
      (m : States) (q p : Text) (o : Option FileState)
      → lookup p (store abs handlers m q o)
        ≡ (if leads_to q p then first_some o (lookup p m) else lookup p m)
  unfolding store
  lookup-store m q p none = ground arith
  lookup-store m q p (some s) = lookup-set_file_state m q p s

  pub elsewhere : (q p : Text) → abs q ≢ some p → leads_to q p ≡ false
  unfolding leads_to
  elsewhere q p u = elim (Option-cases (abs q)) [
    | inl e ↦ rw (leads_to, e) refl
    | inr (a, e) ↦ elim (Bool-cases (text_eq a p)) [
      | inl same ↦ absurd (u (e ∙ ap some ((text_eq_iff a p).0 same)))
      | inr other ↦ rw (leads_to, e) other
    ]
  ]

  pub lookup-process_listen_file :
      (m : States) (q p : Text) (info : FileInfo) (now : ℤ × ℕ) (hours : ℕ)
      → lookup p (process_listen_file abs handlers m q info now hours) ≡ (
          if leads_to q p
          then first_some (listened abs handlers q info now hours (lookup p m)) (lookup p m)
          else lookup p m)
  unfolding process_listen_file
  lookup-process_listen_file m q p info now hours =
      lookup-store m q p (listened abs handlers q info now hours (get_file_state abs m q))
      ∙ elim (Bool-cases (leads_to q p)) [
        | inl e ↦ rw e (
            ap (λ o. first_some (listened abs handlers q info now hours o) (lookup p m))
              (get_file_state_led m q p e))
        | inr e ↦ rw e refl
      ]
