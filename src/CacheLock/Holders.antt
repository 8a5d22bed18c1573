-- ===== src/CacheLock/Holders.antt =====
-- The runs of goroutines that lock keys of the record caches (internal/model/record_cache_lock.go).
use co_scout.Prelude.{
  ℕ, zero, suc, ◌≡◌, ◌≢◌, refl, ap, ◌∙◌, sym, subst, false, ◌||◌, List, [], ◌∷◌, Option, none, some,
  Text, text_eq, text_eq_refl, codes, lookup, lookup-insert, get_elem?, arith, Bool-cases, inl, inr,
}
use co_scout.CacheLock.{
  Goroutine, idle, waiting, holding, System, Step, locks_key, gets_mutex, releases, find_or_create,
  add_reference, lock_from, get_from, release_from, step, run,
}
use co_scout.CacheLock.Releases.{release-IsSound}
use co_scout.CacheLock.Exclusive.{
  refers, count, Fits, IsSound, create-IsSound, add_reference-IsSound, take-IsSound,
}

find_or_create_lem :
    (key : Text) (sys : System) → lookup key (find_or_create key none sys).0.locks ≡ some sys.next
unfolding find_or_create
find_or_create_lem key sys = lookup-insert key key sys.next sys.locks ∙ rw (text_eq_refl key) refl

lock_from-IsSound :
    (i : ℕ) (key : Text) (sys : System)
    → IsSound sys
    → IsSound (lock_from i key (get_elem? sys.goroutines i) sys)
unfolding lock_from
lock_from-IsSound i key sys s = go (get_elem? sys.goroutines i) refl
  where
    entered :
        get_elem? sys.goroutines i ≡ some idle
        → (o : Option ℕ) → lookup key sys.locks ≡ o
        → IsSound (add_reference i key (find_or_create key o sys))
    entered at_i none e =
        add_reference-IsSound i key sys.next (find_or_create key none sys).0
          (create-IsSound key sys s e) (find_or_create_lem key sys) at_i
    entered at_i (some l) e = add_reference-IsSound i key l sys s e at_i

    go : (o : Option Goroutine) → get_elem? sys.goroutines i ≡ o → IsSound (lock_from i key o sys)
    go none e = s
    go (some idle) e = elim (Bool-cases (text_eq key [] || text_eq key (codes "."))) [
      | inl skip ↦ rw skip s
      | inr locks ↦ rw locks (entered e (lookup key sys.locks) refl)
    ]
    go (some (waiting k l)) e = s
    go (some (holding k l)) e = s

get_from-IsSound :
    (i : ℕ) (sys : System) → IsSound sys → IsSound (get_from i (get_elem? sys.goroutines i) sys)
unfolding get_from
get_from-IsSound i sys s = go (get_elem? sys.goroutines i) refl
  where
    go : (o : Option Goroutine) → get_elem? sys.goroutines i ≡ o → IsSound (get_from i o sys)
    go none e = s
    go (some idle) e = s
    go (some (waiting k l)) e = elim (Bool-cases (sys.store l).locked) [
      | inl taken ↦ rw taken s
      | inr free ↦ rw free (take-IsSound i k l sys s free e)
    ]
    go (some (holding k l)) e = s

release_from-IsSound :
    (i : ℕ) (sys : System) → IsSound sys → IsSound (release_from i (get_elem? sys.goroutines i) sys)
unfolding release_from
release_from-IsSound i sys s = go (get_elem? sys.goroutines i) refl
  where
    go : (o : Option Goroutine) → get_elem? sys.goroutines i ≡ o → IsSound (release_from i o sys)
    go none e = s
    go (some idle) e = s
    go (some (waiting k l)) e = s
    go (some (holding k l)) e = release-IsSound i k l sys s e

abbrev pub idles : ℕ → List Goroutine
idles zero = []
idles (suc n) = idle ∷ idles n

-- The start: no keys, and goroutines that do nothing yet.
abbrev pub start : ℕ → System
start n = record {
  locks = [];
  store = λ l. record { locked = false; references = 0 };
  next = 0;
  goroutines = idles n;
}

count-idles : (l n : ℕ) → count l (idles n) ≡ 0
unfolding count refers
count-idles l zero = refl
count-idles l (suc n) = omega (arith, count-idles l n)

idles-idle : (n i : ℕ) (g : Goroutine) → get_elem? (idles n) i ≡ some g → idle ≡ g
idles-idle zero i g h = cc
idles-idle (suc n) zero g h = ground arith
idles-idle (suc n) (suc i) g h = idles-idle n i g h

start-IsSound : (n : ℕ) → IsSound (start n)
unfolding lookup
start-IsSound n = record {
  fits = λ i g h. subst (Fits (start n)) (idles-idle n i g h) tt;
  counted = λ l. sym (count-idles l n);
  exclusive = λ i j k k' l h h'. let e = idles-idle n i (holding k l) h in cc;
  in_use = λ k l h. cc;
  unused = λ l h. count-idles l n;
}

module _ (clean_key : Text → Text) where
  pub run-IsSound :
      (sys : System) (steps : List Step) → IsSound sys → IsSound (run clean_key sys steps)
  unfolding run step
  run-IsSound sys [] s = s
  run-IsSound sys (locks_key i key ∷ steps) s =
      run-IsSound (lock_from i (clean_key key) (get_elem? sys.goroutines i) sys) steps
        (lock_from-IsSound i (clean_key key) sys s)
  run-IsSound sys (gets_mutex i ∷ steps) s =
      run-IsSound (get_from i (get_elem? sys.goroutines i) sys) steps (get_from-IsSound i sys s)
  run-IsSound sys (releases i ∷ steps) s =
      run-IsSound (release_from i (get_elem? sys.goroutines i) sys) steps
        (release_from-IsSound i sys s)

  -- While a goroutine holds a key no other one holds it, after any steps from the start, in which
  -- the mutex of the key was deleted and made anew any number of times.
  pub run-one_holder :
      (n : ℕ) (steps : List Step) (i j : ℕ) (key : Text) (l m : ℕ)
      → get_elem? (run clean_key (start n) steps).goroutines i ≡ some (holding key l)
      → i ≢ j
      → get_elem? (run clean_key (start n) steps).goroutines j ≢ some (holding key m)
  run-one_holder n steps i j key l m h other h' =
      let s = run-IsSound (start n) steps (start-IsSound n) in
      let at_l = (s.fits i (holding key l) h).0 in
      let at_m = (s.fits j (holding key m) h').0 in
      other (s.exclusive i j key key l h (h' ∙ ap (λ o. some (holding key o)) (ground arith)))
