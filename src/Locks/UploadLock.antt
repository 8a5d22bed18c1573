-- ===== src/Locks/UploadLock.antt =====
-- internal/collector/upload_lock.go: the files that are being uploaded.
use co_scout.Prelude.{
  ◌≡◌, refl, Bool, true, false, not, ◌&&◌, ◌||◌, none, some, is_some, if◌then◌else◌, Text, text_eq,
  text_eq_iff, Map, put, is_blank, Bool-cases, arith, inl, inr,
}
use co_scout.Locks.{Registry}

pub record UploadLockRegistry : Type 0 where
  pub active : Map (Unit {0})

unfoldable pub new_upload_lock_registry : UploadLockRegistry
new_upload_lock_registry = record { active = λ k. none }

unfoldable pub try_acquire : UploadLockRegistry → Text → UploadLockRegistry × Bool
try_acquire r key =
    if is_blank key
    then (r, false)
    else if is_some (r.active key)
    then (r, false)
    else (record { active = put r.active key (some tt) }, true)

unfoldable pub release : UploadLockRegistry → Text → UploadLockRegistry
release r key = if is_blank key then r else record { active = put r.active key none }

abbrev is_active : UploadLockRegistry → Text → Bool
is_active r key = is_some (r.active key)

pub try_acquire-acquired :
    (r : UploadLockRegistry) (k : Text)
    → (try_acquire r k).1 ≡ (not (is_blank k) && not (is_active r k))
unfolding try_acquire
try_acquire-acquired r k = ground arith

pub try_acquire-active :
    (r : UploadLockRegistry) (k j : Text)
    → is_active (try_acquire r k).0 j ≡ (is_active r j || (not (is_blank k) && text_eq k j))
unfolding try_acquire put
try_acquire-active r k j = elim (Bool-cases (text_eq k j)) [
  | inl e ↦ let p : k ≡ j = (text_eq_iff k j).0 e in rw (e, p) (ground arith)
  | inr e ↦ rw e (ground arith)
]

pub release-active :
    (r : UploadLockRegistry) (k j : Text)
    → is_active (release r k) j ≡ (is_active r j && not (not (is_blank k) && text_eq k j))
unfolding release put
release-active r k j = ground arith

-- The registry as its callers see it.
unfoldable pub upload_locks : Registry
unfolding new_upload_lock_registry
upload_locks = record {
  State = UploadLockRegistry;
  empty = new_upload_lock_registry;
  is_active = is_active;
  try_acquire = try_acquire;
  release = release;
  empty_law = λ k. refl;
  acquired_law = try_acquire-acquired;
  acquire_law = try_acquire-active;
  release_law = release-active;
}
