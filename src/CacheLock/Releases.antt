-- ===== src/CacheLock/Releases.antt =====
-- A release keeps the invariant of the keyed mutexes (internal/model/record_cache_lock.go).
use co_scout.Prelude.{
  ℕ, ◌-◌, ◌≡◌, subst, false, some, ◌==◌, Text, text_eq, text_eq_iff, lookup, lookup-delete,
  get_elem?, set, arith, Bool-cases, inl, inr,
}
use co_scout.CacheLock.{Goroutine, idle, waiting, holding, System, write, release, is_at}
use co_scout.CacheLock.Exclusive.{
  refers, count, count-set, get_elem?-set, set_same, refers-le-count, Fits, IsSound,
}

-- What is left of the references is what the other goroutines refer to.
release-left :
    (i : ℕ) (key : Text) (l : ℕ) (sys : System)
    → IsSound sys
    → get_elem? sys.goroutines i ≡ some (holding key l)
    → (sys.store l).references - 1 ≡ count l (set sys.goroutines i idle)
unfolding refers
release-left i key l sys s at_i =
    ground (arith, s.counted l, count-set l i idle (holding key l) sys.goroutines)

release-lookup :
    (i j : ℕ) (key k : Text) (l m : ℕ) (g : Goroutine) (sys : System)
    → IsSound sys
    → get_elem? sys.goroutines i ≡ some (holding key l)
    → get_elem? (set sys.goroutines i idle) j ≡ some g
    → refers m g ≡ 1
    → lookup k sys.locks ≡ some m
    → lookup k (release i key l sys).locks ≡ some m
unfolding release is_at
release-lookup i j key k l m g sys s at_i at_j r found = elim (Bool-cases (text_eq key k)) [
  | inr e ↦ ground (arith, lookup-delete key k sys.locks)
  | inl e ↦
      let same : key ≡ k = (text_eq_iff key k).0 e in
      let mine = (s.fits i (holding key l) at_i).0 in
      let equal : m ≡ l = ground arith in
      let left = release-left i key l sys s at_i in
      let one = refers-le-count m j g (set sys.goroutines i idle) at_j in
      let more : ((sys.store l).references - 1 == 0) ≡ false = ground arith in rw more found
]

release-Fits :
    (i j : ℕ) (key : Text) (l : ℕ) (g : Goroutine) (sys : System)
    → IsSound sys
    → get_elem? sys.goroutines i ≡ some (holding key l)
    → get_elem? (set sys.goroutines i idle) j ≡ some g
    → i == j ≡ false
    → get_elem? sys.goroutines j ≡ some g
    → Fits (release i key l sys) g
unfolding refers release write
release-Fits i j key l idle sys s at_i at_j e was = tt
release-Fits i j key l (waiting k m) sys s at_i at_j e was =
    release-lookup i j key k l m (waiting k m) sys s at_i at_j (ground arith)
      (s.fits j (waiting k m) was)
release-Fits i j key l (holding k m) sys s at_i at_j e was = (
  release-lookup i j key k l m (holding k m) sys s at_i at_j (ground arith)
      (s.fits j (holding k m) was).0,
  ground (arith, (s.fits j (holding k m) was).1, s.exclusive i j key k l),
)

pub release-IsSound :
    (i : ℕ) (key : Text) (l : ℕ) (sys : System)
    → IsSound sys
    → get_elem? sys.goroutines i ≡ some (holding key l)
    → IsSound (release i key l sys)
unfolding release write refers
release-IsSound i key l sys s at_i = record {
  fits = λ j g h. elim (Bool-cases (i == j)) [
    | inl e ↦
        subst (Fits (release i key l sys))
          (set_same i j g idle (holding key l) sys.goroutines at_i h e) tt
    | inr e ↦
        release-Fits i j key l g sys s at_i h e
          (ground (arith, get_elem?-set i j idle (holding key l) sys.goroutines))
  ];
  counted = λ m. ground (arith, s.counted m, count-set m i idle (holding key l) sys.goroutines);
  exclusive = λ j j' k k' m h h'. ground (
    arith,
    s.exclusive j j' k k' m,
    get_elem?-set i j idle (holding key l) sys.goroutines,
    get_elem?-set i j' idle (holding key l) sys.goroutines,
  );
  in_use = λ k m h. ground (arith, lookup-delete key k sys.locks, s.in_use k m);
  unused = λ m h. ground (arith, s.unused m, count-set m i idle (holding key l) sys.goroutines);
}
