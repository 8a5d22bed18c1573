-- ===== src/Locks.antt =====
-- internal/collector/upload_lock.go and internal/collector/record_registry.go: what is in flight,
-- as a set of keys under a mutex. Both offer the operations of `Registry`, which the callers rely
-- on.
pub mod UploadLock
pub mod RecordRegistry
pub mod Holders
mod Tests
use co_scout.Prelude.{
  ℕ, ◌≡◌, refl, Bool, true, false, not, ◌&&◌, ◌||◌, Option, none, some, is_some, if◌then◌else◌,
  Text, text_eq, text_eq_iff, Map, put, is_blank, Bool-cases, arith,
}

-- The operations, and what they do to the set of the active keys. A blank key is never active.
pub record Registry : Type 1 where
  pub State : Type 0
  pub empty : State
  pub is_active : State → Text → Bool
  pub try_acquire : State → Text → State × Bool
  pub release : State → Text → State
  pub empty_law : (k : Text) → is_active empty k ≡ false
  pub acquired_law :
      (s : State) (k : Text) → (try_acquire s k).1 ≡ (not (is_blank k) && not (is_active s k))
  pub acquire_law :
      (s : State) (k j : Text)
      → is_active (try_acquire s k).0 j ≡ (is_active s j || (not (is_blank k) && text_eq k j))
  pub release_law :
      (s : State) (k j : Text)
      → is_active (release s k) j ≡ (is_active s j && not (not (is_blank k) && text_eq k j))
