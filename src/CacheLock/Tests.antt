-- ===== src/CacheLock/Tests.antt =====
-- A key that is handed on, whose mutex is deleted and made anew
-- (internal/model/record_cache_lock.go).
use co_scout.Prelude.{
  ◌≡◌, ◌≢◌, arith, refl, ap, List, [], ◌∷◌, some, codes, lookup, insert, delete, get_elem?, text_eq,
}
use co_scout.CacheLock.{waiting, holding, Step, locks_key, gets_mutex, releases, take_mutex, run}
use co_scout.CacheLock.Holders.{start, run-one_holder}

abbrev handed_on : List Step
handed_on =
    locks_key 0 (codes "a")
    ∷ gets_mutex 0
    ∷ releases 0
    ∷ locks_key 1 (codes "a")
    ∷ locks_key 0 (codes "a")
    ∷ gets_mutex 1
    ∷ gets_mutex 0
    ∷ []

-- The first mutex is gone, the second is held by the second goroutine, and the first one waits.
second_mutex :
    (run (λ k. k) (start 2) handed_on).goroutines
    ≡ waiting (codes "a") 1 ∷ holding (codes "a") 1 ∷ []
unfolding run lookup insert delete text_eq take_mutex
second_mutex = refl

run-one_holder_example :
    get_elem? (run (λ k. k) (start 2) handed_on).goroutines 0 ≢ some (holding (codes "a") 1)
run-one_holder_example =
    run-one_holder (λ k. k) 2 handed_on 1 0 (codes "a") 1 1 (ap (λ gs. get_elem? gs 1) second_mutex)
      (λ e. omega arith)
