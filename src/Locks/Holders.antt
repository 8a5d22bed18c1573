-- ===== src/Locks/Holders.antt =====
-- The goroutines that take a key and release it when they are done: `UploadFile` of
-- internal/collector/upload.go, over any registry that keeps the laws.
use co_scout.Prelude.{
  ℕ, ◌≡◌, ◌≢◌, Bool, true, false, Option, none, some, is_some, ◌==◌, if◌then◌else◌, List, [], ◌∷◌,
  Text, text_eq, text_eq_iff, text_eq_refl, is_blank, Bool-cases, Option-cases, arith, inl, inr,
}
use co_scout.Locks.{Registry}

-- A goroutine asks for a key, and goes on only if it gets it; or it returns, and its `defer`
-- releases the key it has.
pub data Event : Type 0 where
  start : ℕ → Text → Event
  finish : ℕ → Event

assign : (ℕ → Option Text) → ℕ → Option Text → ℕ → Option Text
assign held w k v = if w == v then k else held v

pub record Holders (S : Type 0) : Type 0 where
  pub registry : S
  pub held : ℕ → Option Text

module _ (reg : Registry) where
  unfoldable pub no_holders : Holders reg.State
  no_holders = record { registry = reg.empty; held = λ w. none }

  granted : Holders reg.State → ℕ → Text → reg.State × Bool → Holders reg.State
  unfolding assign
  granted sys w k (r, ok) = record {
    registry = r;
    held = if ok then assign sys.held w (some k) else sys.held;
  }

  returned : Holders reg.State → ℕ → Option Text → Holders reg.State
  unfolding assign
  returned sys w none = sys
  returned sys w (some k) = record {
    registry = reg.release sys.registry k;
    held = assign sys.held w none;
  }

  -- A goroutine that has a key asks for no other.
  unfoldable pub step : Holders reg.State → Event → Holders reg.State
  unfolding granted returned
  step sys (start w k) =
      if is_some (sys.held w) then sys else granted sys w k (reg.try_acquire sys.registry k)
  step sys (finish w) = returned sys w (sys.held w)

  unfoldable pub run : Holders reg.State → List Event → Holders reg.State
  unfolding step
  run sys [] = sys
  run sys (e ∷ es) = run (step sys e) es

  -- A key that a goroutine has is active and is no blank; no two have the same; and an active key
  -- is one that some goroutine has.
  pub IsExclusive : Holders reg.State → Type 0
  IsExclusive sys =
      ((w : ℕ) (k : Text)
        → sys.held w ≡ some k
        → (reg.is_active sys.registry k ≡ true) × (is_blank k ≡ false))
      × ((w v : ℕ) (k : Text) → sys.held w ≡ some k → sys.held v ≡ some k → w ≡ v)
      × ((k : Text) → reg.is_active sys.registry k ≡ true → (w : ℕ) × (sys.held w ≡ some k))

  no_holders-IsExclusive : IsExclusive no_holders
  unfolding IsExclusive no_holders
  no_holders-IsExclusive = (λ w k e. cc, λ w v k e f. cc, λ k e. let never = reg.empty_law k in cc)

  start-IsExclusive :
      (sys : Holders reg.State) (w : ℕ) (k : Text)
      → IsExclusive sys
      → sys.held w ≡ none
      → IsExclusive (granted sys w k (reg.try_acquire sys.registry k))
  unfolding granted assign IsExclusive
  start-IsExclusive sys w k (backed, unique, owned) idle =
      let got = reg.acquired_law sys.registry k in
      elim (Bool-cases (reg.try_acquire sys.registry k).1) [
        | inl e ↦ rw e (
          λ v j h.
              rw (reg.acquire_law sys.registry k j) (ground (arith, text_eq_refl k, backed v j)),
          λ u v j hu hv. ground (arith, unique u v j, backed u j, backed v j),
          λ j h.
              let h' = rw (reg.acquire_law sys.registry k j) at h in
              elim (Bool-cases (text_eq k j)) [
                | inl t ↦ (w, ground (arith, text_eq_iff k j))
                | inr f ↦ let o = owned j (ground arith) in (o.0, ground arith)
              ],
        )
        | inr e ↦ rw e (
          λ v j h. rw (reg.acquire_law sys.registry k j) (ground (arith, backed v j)),
          unique,
          λ j h.
              let h' = rw (reg.acquire_law sys.registry k j) at h in
              owned j (ground (arith, text_eq_iff k j)),
        )
      ]

  finish-IsExclusive :
      (sys : Holders reg.State) (w : ℕ) (k : Text)
      → IsExclusive sys
      → sys.held w ≡ some k
      → IsExclusive (returned sys w (some k))
  unfolding returned assign IsExclusive
  finish-IsExclusive sys w k (backed, unique, owned) has = (
    λ v j h.
        rw (reg.release_law sys.registry k j)
          (ground (arith, backed v j, unique v w k, text_eq_iff k j)),
    λ u v j hu hv. ground (arith, unique u v j),
    λ j h.
        let h' = rw (reg.release_law sys.registry k j) at h in
        let o = owned j (ground arith) in (o.0, ground (arith, backed w k has, text_eq_iff k j)),
  )

  step-IsExclusive :
      (sys : Holders reg.State) (e : Event) → IsExclusive sys → IsExclusive (step sys e)
  unfolding step returned
  step-IsExclusive sys (start w k) h = elim (Option-cases (sys.held w)) [
    | inl e ↦ rw e (start-IsExclusive sys w k h e)
    | inr (j, e) ↦ rw e h
  ]
  step-IsExclusive sys (finish w) h = elim (Option-cases (sys.held w)) [
    | inl e ↦ rw e h
    | inr (j, e) ↦ rw e (finish-IsExclusive sys w j h e)
  ]

  run-IsExclusive :
      (sys : Holders reg.State) (es : List Event) → IsExclusive sys → IsExclusive (run sys es)
  unfolding run
  run-IsExclusive sys [] h = h
  run-IsExclusive sys (e ∷ es) h = run-IsExclusive (step sys e) es (step-IsExclusive sys e h)

  -- In whatever order goroutines ask for keys of a new registry and finish, no two of them have the
  -- same key at the same time.
  pub one_holder :
      (es : List Event) (w v : ℕ) (k : Text)
      → w ≢ v
      → (run no_holders es).held w ≡ some k
      → (run no_holders es).held v ≢ some k
  unfolding IsExclusive
  one_holder es w v k differ hw hv =
      differ ((run-IsExclusive no_holders es no_holders-IsExclusive).1 w v k hw hv)

  -- No key is lost: after any such run, a goroutine without a key that asks for a key that is not
  -- blank and that nobody has gets it.
  pub free_key_granted :
      (es : List Event) (w : ℕ) (k : Text)
      → (run no_holders es).held w ≡ none
      → is_blank k ≡ false
      → ((v : ℕ) → (run no_holders es).held v ≢ some k)
      → (step (run no_holders es) (start w k)).held w ≡ some k
  unfolding IsExclusive step granted assign
  free_key_granted es w k idle text free =
      let sys = run no_holders es in
      let owned = (run-IsExclusive no_holders es no_holders-IsExclusive).2 k in
      let got = reg.acquired_law sys.registry k in
      let inactive : reg.is_active sys.registry k ≡ false =
        elim (Bool-cases (reg.is_active sys.registry k)) [
          | inl e ↦ absurd (free (owned e).0 (owned e).1)
          | inr e ↦ e
        ] in
      ground arith
