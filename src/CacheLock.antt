-- ===== src/CacheLock.antt =====
-- internal/model/record_cache_lock.go: the mutexes by key, and the goroutines that lock keys and
-- release them. What strings.TrimSpace and filepath.Clean make of a key is a parameter. The mutex
-- of the registry makes each of its sections one step; a goroutine waits for the keyed mutex
-- outside.
pub mod Exclusive
pub mod Releases
pub mod Holders
mod Tests
use co_scout.Prelude.{
  ℕ, suc, ◌-◌, Bool, true, false, not, ◌&&◌, ◌||◌, List, [], ◌∷◌, Option, none, some, ◌==◌,
  if◌then◌else◌, Text, text_eq, codes, lookup, insert, delete, get_elem?, set,
}

pub record KeyedMutex : Type 0 where
  pub locked : Bool
  pub references : ℕ

-- A goroutine waits for the mutex at an address, or holds it, for a key.
pub data Goroutine : Type 0 where
  idle : Goroutine
  waiting holding : Text → ℕ → Goroutine

-- The store has the mutexes by their addresses, those from `next` on are free.
pub record System : Type 0 where
  pub locks : List (Text × ℕ)
  pub store : ℕ → KeyedMutex
  pub next : ℕ
  pub goroutines : List Goroutine

pub data Step : Type 0 where
  locks_key : ℕ → Text → Step
  gets_mutex releases : ℕ → Step

unfoldable pub write : ℕ → KeyedMutex → (ℕ → KeyedMutex) → ℕ → KeyedMutex
write l m store j = if l == j then m else store j

-- The entry of a key is there, or a new mutex becomes one.
unfoldable pub find_or_create : Text → Option ℕ → System → System × ℕ
unfolding write
find_or_create key (some l) sys = (sys, l)
find_or_create key none sys = (
  record sys {
    locks = insert key sys.next sys.locks;
    store = write sys.next (record { locked = false; references = 0 }) sys.store;
    next = suc sys.next;
  },
  sys.next,
)

unfoldable pub add_reference : ℕ → Text → System × ℕ → System
unfolding write
add_reference i key (sys, l) =
    let mutex = sys.store l in
    record sys {
      store = write l (record mutex { references = suc mutex.references }) sys.store;
      goroutines = set sys.goroutines i (waiting key l);
    }

unfoldable pub is_at : ℕ → Option ℕ → Bool
is_at l none = false
is_at l (some j) = j == l

unfoldable pub release : ℕ → Text → ℕ → System → System
unfolding write is_at
release i key l sys =
    let left = (sys.store l).references - 1 in
    record sys {
      locks =
          if left == 0 && is_at l (lookup key sys.locks) then delete key sys.locks else sys.locks;
      store = write l (record { locked = false; references = left }) sys.store;
      goroutines = set sys.goroutines i idle;
    }

-- `Lock` up to the mutex of the key; the empty key and `.` are not locked.
unfoldable pub lock_from : ℕ → Text → Option Goroutine → System → System
unfolding find_or_create add_reference
lock_from i key none sys = sys
lock_from i key (some idle) sys =
    if text_eq key [] || text_eq key (codes ".")
    then sys
    else add_reference i key (find_or_create key (lookup key sys.locks) sys)
lock_from i key (some (waiting k l)) sys = sys
lock_from i key (some (holding k l)) sys = sys

unfoldable pub take_mutex : ℕ → Text → ℕ → System → System
unfolding write
take_mutex i key l sys = record sys {
  store = write l (record { locked = true; references = (sys.store l).references }) sys.store;
  goroutines = set sys.goroutines i (holding key l);
}

-- The keyed mutex is taken once it is free.
unfoldable pub get_from : ℕ → Option Goroutine → System → System
get_from i none sys = sys
get_from i (some idle) sys = sys
get_from i (some (waiting key l)) sys = if (sys.store l).locked then sys else take_mutex i key l sys
get_from i (some (holding key l)) sys = sys

-- The release runs once: a goroutine that holds nothing releases nothing.
unfoldable pub release_from : ℕ → Option Goroutine → System → System
unfolding release
release_from i none sys = sys
release_from i (some idle) sys = sys
release_from i (some (waiting key l)) sys = sys
release_from i (some (holding key l)) sys = release i key l sys

module _ (clean_key : Text → Text) where
  unfoldable pub step : System → Step → System
  unfolding lock_from get_from release_from
  step sys (locks_key i key) = lock_from i (clean_key key) (get_elem? sys.goroutines i) sys
  step sys (gets_mutex i) = get_from i (get_elem? sys.goroutines i) sys
  step sys (releases i) = release_from i (get_elem? sys.goroutines i) sys

  unfoldable pub run : System → List Step → System
  unfolding step
  run sys [] = sys
  run sys (s ∷ steps) = run (step sys s) steps
