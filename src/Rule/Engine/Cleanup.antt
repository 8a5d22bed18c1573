-- ===== src/Rule/Engine/Cleanup.antt =====
-- What the cleaning of the debounce times deletes (cleanupDebounceTime of
-- internal/mod/rule/engine.go).
use co_scout.Prelude.{
  ◌≡◌, refl, ap, ◌∙◌, Bool, false, not, ◌&&◌, List, [], ◌∷◌, Option, none, some, ltb, if◌then◌else◌,
  Text, text_eq, text_eq_iff, length, lookup, delete, lookup-delete, arith, Bool-cases, inl, inr,
}
use co_scout.Prelude.Int.{ℤ}
use co_scout.Rule.Validate.{contains}
use co_scout.Rule.Engine.Consume.{
  Debounces, is_expired, expired_keys, delete_keys, cleanup_debounce_time,
}

-- Each key has one entry.
abbrev pub IsUnique : Debounces → Type 0
IsUnique [] = Unit {0}
IsUnique ((k, time) ∷ m) = (lookup k m ≡ none) × IsUnique m

lookup-delete_keys :
    (ks : List Text) (k : Text) (m : Debounces)
    → lookup k (delete_keys ks m)
      ≡ (if contains ks k && not (text_eq k []) then none else lookup k m)
unfolding delete_keys contains text_eq
lookup-delete_keys [] k m = refl
lookup-delete_keys ([] ∷ ks) [] m = lookup-delete_keys ks [] m ∙ ground arith
lookup-delete_keys ([] ∷ ks) (b ∷ bs) m = lookup-delete_keys ks (b ∷ bs) m
lookup-delete_keys ((c ∷ cs) ∷ ks) k m =
    lookup-delete_keys ks k (delete (c ∷ cs) m)
    ∙ ground (arith, lookup-delete (c ∷ cs) k m, text_eq_iff (c ∷ cs) k, text_eq_iff k [])

stale_entry : ℤ → Option (Option ℤ) → Bool
stale_entry now none = false
stale_entry now (some time) = is_expired now time

-- Whether a key that is not empty has a time that is past the longest debounce.
unfoldable pub is_stale : ℤ → Text → Option (Option ℤ) → Bool
unfolding stale_entry
is_stale now k time = stale_entry now time && not (text_eq k [])

contains-expired_keys :
    (now : ℤ) (m : Debounces) (k : Text)
    → IsUnique m
    → contains (expired_keys now m) k ≡ stale_entry now (lookup k m)
unfolding expired_keys contains lookup stale_entry
contains-expired_keys now [] k h = refl
contains-expired_keys now ((j, time) ∷ m) k h =
    let ih = contains-expired_keys now m k h.1 in
    elim (Bool-cases (text_eq j k)) [
      | inl e ↦
          let same = (text_eq_iff j k).0 e in
          let gone : lookup k m ≡ none = rw same at h.0 in
          let kept : contains (expired_keys now m) k ≡ false = ih ∙ rw gone refl in
          rw e (ground (arith, kept, e))
      | inr e ↦ rw e (ground (arith, ih, e))
    ]

-- With more than a thousand entries the cleaning deletes just those that have a key and a time more
-- than a day back; with at most a thousand it deletes none.
pub cleanup_debounce_time_lem :
    (now : ℤ) (m : Debounces) (k : Text)
    → IsUnique m
    → lookup k (cleanup_debounce_time now m)
      ≡ (if ltb 1000 (length m) && is_stale now k (lookup k m) then none else lookup k m)
unfolding cleanup_debounce_time is_stale
cleanup_debounce_time_lem now m k h = elim (Bool-cases (ltb 1000 (length m))) [
  | inr e ↦ rw e refl
  | inl e ↦ rw e (
      lookup-delete_keys (expired_keys now m) k m
      ∙ ap (λ b. if b && not (text_eq k []) then none else lookup k m)
          (contains-expired_keys now m k h))
]
