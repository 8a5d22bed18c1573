-- ===== src/Locks/Tests.antt =====
-- internal/collector/upload_lock.go and record_registry.go with two goroutines.
use co_scout.Prelude.{
  ℕ, ◌≡◌, ◌≢◌, refl, false, List, [], ◌∷◌, Option, none, some, Text, codes, is_blank, put, text_eq,
  arith,
}
use co_scout.Locks.{Registry}
use co_scout.Locks.Holders.{
  Event, start, finish, no_holders, step, run, one_holder, free_key_granted,
}
use co_scout.Locks.UploadLock
use co_scout.Locks.RecordRegistry
use co_scout.Locks.UploadLock.{upload_locks}
use co_scout.Locks.RecordRegistry.{record_set}

abbrev key : Text
key = codes "r|f"

-- The second goroutine asks while the first has the key, and again when it has finished.
abbrev events : List Event
events = start 1 key ∷ start 2 key ∷ finish 1 ∷ start 2 key ∷ []

abbrev key_of : Registry → List Event → ℕ → Option Text
key_of reg es w = (run reg (no_holders reg) es).held w

handed_over : key_of upload_locks events 1 ≡ none
unfolding run no_holders upload_locks UploadLock.try_acquire is_blank put text_eq UploadLock.release
handed_over = refl

second_has : key_of upload_locks events 2 ≡ some key
unfolding run no_holders upload_locks UploadLock.try_acquire is_blank put text_eq UploadLock.release
second_has = refl

record_is_set : key_of record_set (start 3 key ∷ start 4 key ∷ []) 4 ≡ none
unfolding run no_holders record_set RecordRegistry.try_acquire is_blank put text_eq
record_is_set = refl

abbrev released : List Event
released = start 1 key ∷ finish 1 ∷ []

nobody_left : (v : ℕ) → key_of upload_locks released v ≢ some key
unfolding run no_holders upload_locks UploadLock.try_acquire is_blank put text_eq UploadLock.release
nobody_left v e = ground arith

idle : key_of upload_locks released 2 ≡ none
unfolding run no_holders upload_locks UploadLock.try_acquire is_blank put text_eq UploadLock.release
idle = refl

no_blank : is_blank key ≡ false
unfolding is_blank
no_blank = refl

one_holder_example : key_of upload_locks events 1 ≢ some key
one_holder_example = one_holder upload_locks events 2 1 key (omega arith) second_has

free_key_granted_example :
    (step upload_locks (run upload_locks (no_holders upload_locks) released) (start 2 key)).held 2
    ≡ some key
free_key_granted_example = free_key_granted upload_locks released 2 key idle no_blank nobody_left
