-- ===== src/CacheLock/Exclusive.antt =====
-- A key has one holder at most, however its mutexes come and go
-- (internal/model/record_cache_lock.go).
use co_scout.Prelude.{
  ℕ, zero, suc, ◌+◌, ◌≤◌, ◌<◌, ◌≡◌, ◌≢◌, refl, ap, sym, subst, true, false, List, [], ◌∷◌, Option,
  none, some, ◌==◌, if◌then◌else◌, Text, text_eq_iff, lookup, lookup-insert, get_elem?, set, arith,
  Bool-cases, inl, inr,
}
use co_scout.CacheLock.{
  Goroutine, idle, waiting, holding, System, write, find_or_create, add_reference, take_mutex,
}

-- How often a goroutine refers to the mutex at an address.
unfoldable pub refers : ℕ → Goroutine → ℕ
refers l idle = 0
refers l (waiting k j) = if j == l then 1 else 0
refers l (holding k j) = if j == l then 1 else 0

unfoldable pub count : ℕ → List Goroutine → ℕ
count l [] = 0
count l (g ∷ gs) = refers l g + count l gs

pub count-set :
    (l i : ℕ) (g old : Goroutine) (gs : List Goroutine)
    → get_elem? gs i ≡ some old
    → count l (set gs i g) + refers l old ≡ count l gs + refers l g
unfolding count
count-set l i g old [] h = cc
count-set l zero g old (x ∷ gs) h = ground arith
count-set l (suc i) g old (x ∷ gs) h = omega (arith, count-set l i g old gs h)

pub get_elem?-set :
    (i j : ℕ) (g old : Goroutine) (gs : List Goroutine)
    → get_elem? gs i ≡ some old
    → get_elem? (set gs i g) j ≡ (if i == j then some g else get_elem? gs j)
get_elem?-set i j g old [] h = cc
get_elem?-set zero zero g old (x ∷ gs) h = refl
get_elem?-set zero (suc j) g old (x ∷ gs) h = ground arith
get_elem?-set (suc i) zero g old (x ∷ gs) h = ground arith
get_elem?-set (suc i) (suc j) g old (x ∷ gs) h = ground (arith, get_elem?-set i j g old gs)

pub set_same :
    (i j : ℕ) (g new old : Goroutine) (gs : List Goroutine)
    → get_elem? gs i ≡ some old
    → get_elem? (set gs i new) j ≡ some g
    → i == j ≡ true
    → new ≡ g
set_same i j g new old gs h k e = ground (arith, get_elem?-set i j new old gs)

pub refers-le-count :
    (l i : ℕ) (g : Goroutine) (gs : List Goroutine)
    → get_elem? gs i ≡ some g
    → refers l g ≤ count l gs
unfolding count
refers-le-count l i g [] h = cc
refers-le-count l zero g (x ∷ gs) h = ground arith
refers-le-count l (suc i) g (x ∷ gs) h = omega (arith, refers-le-count l i g gs h)

-- The entry of a goroutine's key is the mutex that it waits for or holds; one that is held is
-- locked.
abbrev pub Fits : System → Goroutine → Type 0
Fits sys idle = Unit {0}
Fits sys (waiting k l) = lookup k sys.locks ≡ some l
Fits sys (holding k l) = (lookup k sys.locks ≡ some l) × ((sys.store l).locked ≡ true)

pub record IsSound (sys : System) : Type 0 where
  pub fits : (i : ℕ) (g : Goroutine) → get_elem? sys.goroutines i ≡ some g → Fits sys g
  pub counted : (l : ℕ) → (sys.store l).references ≡ count l sys.goroutines
  pub exclusive :
      (i j : ℕ) (k k' : Text) (l : ℕ)
      → get_elem? sys.goroutines i ≡ some (holding k l)
      → get_elem? sys.goroutines j ≡ some (holding k' l)
      → i ≡ j
  pub in_use : (k : Text) (l : ℕ) → lookup k sys.locks ≡ some l → l < sys.next
  pub unused : (l : ℕ) → sys.next ≤ l → count l sys.goroutines ≡ 0

create-Fits :
    (key : Text) (sys : System) (g : Goroutine)
    → IsSound sys
    → lookup key sys.locks ≡ none
    → Fits sys g
    → Fits (find_or_create key none sys).0 g
unfolding find_or_create write
create-Fits key sys idle s n f = tt
create-Fits key sys (waiting k l) s n f =
    ground (arith, lookup-insert key k sys.next sys.locks, text_eq_iff key k)
create-Fits key sys (holding k l) s n f = (
  ground (arith, lookup-insert key k sys.next sys.locks, text_eq_iff key k, f.0),
  ground (arith, s.in_use k l f.0, f.1),
)

pub create-IsSound :
    (key : Text) (sys : System)
    → IsSound sys
    → lookup key sys.locks ≡ none
    → IsSound (find_or_create key none sys).0
unfolding find_or_create write
create-IsSound key sys s n = record {
  fits = λ i g h. create-Fits key sys g s n (s.fits i g h);
  counted = λ l. ground (arith, s.counted l, s.unused l);
  exclusive = s.exclusive;
  in_use = λ k l h. ground (arith, lookup-insert key k sys.next sys.locks, s.in_use k l);
  unused = λ l h. s.unused l (omega arith);
}

add_reference-Fits :
    (i : ℕ) (key : Text) (l : ℕ) (sys : System) (g : Goroutine)
    → Fits sys g
    → Fits (add_reference i key (sys, l)) g
unfolding add_reference write
add_reference-Fits i key l sys idle f = tt
add_reference-Fits i key l sys (waiting k m) f = f
add_reference-Fits i key l sys (holding k m) f = (f.0, ground (arith, f.1))

pub add_reference-IsSound :
    (i : ℕ) (key : Text) (l : ℕ) (sys : System)
    → IsSound sys
    → lookup key sys.locks ≡ some l
    → get_elem? sys.goroutines i ≡ some idle
    → IsSound (add_reference i key (sys, l))
unfolding add_reference write refers
add_reference-IsSound i key l sys s found at_i = record {
  fits = λ j g h. elim (Bool-cases (i == j)) [
    | inl e ↦
        subst (Fits (add_reference i key (sys, l)))
          (set_same i j g (waiting key l) idle sys.goroutines at_i h e) found
    | inr e ↦
        add_reference-Fits i key l sys g
          (s.fits j g (ground (arith, get_elem?-set i j (waiting key l) idle sys.goroutines)))
  ];
  counted = λ m. ground (arith, s.counted m, count-set m i (waiting key l) idle sys.goroutines);
  exclusive = λ j j' k k' m h h'. ground (
    arith,
    s.exclusive j j' k k' m,
    get_elem?-set i j (waiting key l) idle sys.goroutines,
    get_elem?-set i j' (waiting key l) idle sys.goroutines,
  );
  in_use = s.in_use;
  unused = λ m h.
      ground (arith, s.unused m, s.in_use key l, count-set m i (waiting key l) idle sys.goroutines);
}

take-Fits :
    (i : ℕ) (key : Text) (l : ℕ) (sys : System) (g : Goroutine)
    → Fits sys g
    → Fits (take_mutex i key l sys) g
unfolding take_mutex write
take-Fits i key l sys idle f = tt
take-Fits i key l sys (waiting k m) f = f
take-Fits i key l sys (holding k m) f = (f.0, ground (arith, f.1))

-- While a mutex is free no goroutine holds it.
free_lem :
    (sys : System) (j : ℕ) (k : Text) (m l : ℕ)
    → IsSound sys
    → (sys.store l).locked ≡ false
    → m ≡ l
    → get_elem? sys.goroutines j ≢ some (holding k m)
free_lem sys j k m l s free same h = let f = (s.fits j (holding k m) h).1 in ground arith

mutex_of : Option Goroutine → ℕ
mutex_of none = 0
mutex_of (some idle) = 0
mutex_of (some (waiting k l)) = l
mutex_of (some (holding k l)) = l

pub take-IsSound :
    (i : ℕ) (key : Text) (l : ℕ) (sys : System)
    → IsSound sys
    → (sys.store l).locked ≡ false
    → get_elem? sys.goroutines i ≡ some (waiting key l)
    → IsSound (take_mutex i key l sys)
unfolding take_mutex write refers mutex_of
take-IsSound i key l sys s free at_i = record {
  fits = λ j g h. elim (Bool-cases (i == j)) [
    | inl e ↦
        subst (Fits (take_mutex i key l sys))
          (set_same i j g (holding key l) (waiting key l) sys.goroutines at_i h e)
          (s.fits i (waiting key l) at_i, ground arith)
    | inr e ↦ take-Fits i key l sys g (s.fits j g (was j g e h))
  ];
  counted = λ m.
      ground (arith, s.counted m, count-set m i (holding key l) (waiting key l) sys.goroutines);
  exclusive = λ j j' k k' m h h'. elim (Bool-cases (i == j)) [
    | inl e ↦ elim (Bool-cases (i == j')) [
      | inl e' ↦ ground arith
      | inr e' ↦
          absurd (free_lem sys j' k' m l s free (own j k m h e) (was j' (holding k' m) e' h'))
    ]
    | inr e ↦ elim (Bool-cases (i == j')) [
      | inl e' ↦ absurd (free_lem sys j k m l s free (own j' k' m h' e') (was j (holding k m) e h))
      | inr e' ↦ s.exclusive j j' k k' m (was j (holding k m) e h) (was j' (holding k' m) e' h')
    ]
  ];
  in_use = s.in_use;
  unused = λ m h.
      ground (arith, s.unused m, count-set m i (holding key l) (waiting key l) sys.goroutines);
}
  where
    was :
        (j : ℕ) (g : Goroutine)
        → i == j ≡ false
        → get_elem? (set sys.goroutines i (holding key l)) j ≡ some g
        → get_elem? sys.goroutines j ≡ some g
    was j g e h = ground (arith, get_elem?-set i j (holding key l) (waiting key l) sys.goroutines)

    own :
        (j : ℕ) (k : Text) (m : ℕ)
        → get_elem? (set sys.goroutines i (holding key l)) j ≡ some (holding k m)
        → i == j ≡ true
        → m ≡ l
    own j k m h e = sym (
        ap (λ g. mutex_of (some g))
          (set_same i j (holding k m) (holding key l) (waiting key l) sys.goroutines at_i h e))
