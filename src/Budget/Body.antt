-- ===== src/Budget/Body.antt =====
-- `ReserveBody` of internal/queuedbytes/budget.go: the bytes of a request body are reserved at
-- once if their number is known, and as they are read if not. What the wrapped reader returns, a
-- number of bytes and an error, is an argument of `read`.
use native.Mathlib.Nat.{add_assoc}
use co_scout.Prelude.{
  ◌≡◌, refl, Bool, true, false, if◌then◌else◌, arith, ℕ, ◌+◌, ◌==◌, List, [], ◌∷◌, Option, none,
  some, ◌⊎◌, inl, inr,
}
use co_scout.Prelude.Int.{ℤ, pos, ◌+ℤ◌, ◌-ℤ◌, ◌≤ℤ◌, ltb_ℤ, +ℤ_parts, -ℤ_parts, eq_of_parts}
use co_scout.Budget.{Budget, try_reserve, release}
use co_scout.Budget.Bounds.{IsWithin, try_reserve-IsWithin}

pub data ReadError : Type 0 where
  limit_exceeded : ReadError
  underlying : ℕ → ReadError

-- The reader and the release function that `ReserveBody` returns: for a known length the body
-- itself, and otherwise a `reader`. `released` is the state of the `sync.Once`.
pub data Body : Type 0 where
  known : ℤ → Bool → Body
  counting : ℤ → Bool → Body

-- No body: ErrLimitExceeded.
unfoldable pub reserve_body : Budget → ℤ → Budget × Option Body
unfolding try_reserve
reserve_body b content_length =
    if ltb_ℤ content_length (pos 0)
    then (b, some (counting (pos 0) false))
    else let (b', reserved) = try_reserve b content_length in
      if reserved then (b', some (known content_length false)) else (b, none)

unfoldable pub read :
    Budget → Body → ℕ → Option ReadError → (Budget × Body) × (ℕ × Option ReadError)
unfolding try_reserve
read b (known size released) n err = ((b, known size released), (n, err))
read b (counting reserved released) n err =
    if n == 0
    then ((b, counting reserved released), (n, err))
    else let (b', fits) = try_reserve b (pos n) in
      if fits
      then ((b', counting (reserved +ℤ pos n) released), (n, err))
      else ((b', counting reserved released), (0, some limit_exceeded))

unfoldable pub release_body : Budget → Body → Budget × Body
unfolding release
release_body b (known size false) = ((release b size).0, known size true)
release_body b (known size true) = (b, known size true)
release_body b (counting reserved false) = ((release b reserved).0, counting reserved true)
release_body b (counting reserved true) = (b, counting reserved true)

-- A series of reads, and the number of bytes that they delivered.
unfoldable pub read_all : Budget → Body → List (ℕ × Option ReadError) → (Budget × Body) × ℕ
read_all b body [] = ((b, body), 0)
read_all b body ((n, err) ∷ rs) =
    let ((b', body'), (got, err')) = read b body n err in
    let (end, total) = read_all b' body' rs in (end, got + total)

-- The budget `start` with `size` bytes on top.
abbrev loaded : Budget → ℤ → Budget
loaded start size = record start { queued = start.queued +ℤ size }

pos_add : (k n : ℕ) → pos k +ℤ pos n ≡ pos (k + n)
unfolding ◌+ℤ◌
pos_add k n = ground arith

read_counting :
    (start b : Budget) (k n : ℕ) (err : Option ReadError)
    → b ≡ loaded start (pos k)
    → let r = read b (counting (pos k) false) n err in
      (r.0.1 ≡ counting (pos (k + r.1.0)) false) × (r.0.0 ≡ loaded start (pos (k + r.1.0)))
unfolding read
read_counting start b k n err e = rw e (
    ground (
      arith,
      pos_add k n,
      +ℤ_parts start.queued (pos k),
      +ℤ_parts (start.queued +ℤ pos k) (pos n),
      +ℤ_parts start.queued (pos (k + n)),
      eq_of_parts (start.queued +ℤ pos k +ℤ pos n) (start.queued +ℤ pos (k + n)),
    ))

read_all_counting :
    (start b : Budget) (k : ℕ) (rs : List (ℕ × Option ReadError))
    → b ≡ loaded start (pos k)
    → let r = read_all b (counting (pos k) false) rs in
      (r.0.1 ≡ counting (pos (k + r.1)) false) × (r.0.0 ≡ loaded start (pos (k + r.1)))
unfolding read_all
read_all_counting start b k [] e = ground arith
read_all_counting start b k ((n, err) ∷ rs) e =
    let (shape, same) = read_counting start b k n err e in
    let r = read b (counting (pos k) false) n err in
    rw (shape, ← add_assoc) (read_all_counting start r.0.0 (k + r.1.0) rs same)

read_all_known :
    (b : Budget) (size : ℤ) (released : Bool) (rs : List (ℕ × Option ReadError))
    → (read_all b (known size released) rs).0 ≡ (b, known size released)
unfolding read_all read
read_all_known b size released [] = refl
read_all_known b size released ((n, err) ∷ rs) = read_all_known b size released rs

-- Releasing twice is releasing once.
release_body_once :
    (b : Budget) (body : Body) → let r = release_body b body in release_body r.0 r.1 ≡ r
unfolding release_body
release_body_once b (known size false) = refl
release_body_once b (known size true) = refl
release_body_once b (counting size false) = refl
release_body_once b (counting size true) = refl

release_loaded :
    (start : Budget) (size : ℤ)
    → IsWithin start
    → pos 0 ≤ℤ size
    → (release (loaded start size) size).0 ≡ start
unfolding release
release_loaded start size v lo = ground (
  arith,
  +ℤ_parts start.queued size,
  -ℤ_parts (start.queued +ℤ size) size,
  eq_of_parts (start.queued +ℤ size -ℤ size) start.queued,
  eq_of_parts (start.queued +ℤ size) start.queued,
)

try_reserve-loaded :
    (b : Budget) (size : ℤ)
    → (try_reserve b size).1 ≡ true
    → ((try_reserve b size).0 ≡ loaded b size) × (pos 0 ≤ℤ size)
unfolding try_reserve
try_reserve-loaded b size h = ground arith

reserve_body_cases :
    (b : Budget) (size : ℤ) (body : Body)
    → (reserve_body b size).1 ≡ some body
    → ((body ≡ counting (pos 0) false) × ((reserve_body b size).0 ≡ b))
      ⊎ ((body ≡ known size false) × ((reserve_body b size).0 ≡ loaded b size) × (pos 0 ≤ℤ size))
unfolding reserve_body
reserve_body_cases b size body h = ground (arith, try_reserve-loaded b size)

loaded_zero : (b : Budget) → b ≡ loaded b (pos 0)
loaded_zero b = ground (arith, +ℤ_parts b.queued (pos 0), eq_of_parts (b.queued +ℤ pos 0) b.queued)

-- In a budget within its bounds, and whatever the body's length and its reads, a body that was
-- accepted gives back on release
-- exactly what it took: the budget is then as before the request. A second release changes nothing.
pub reserve_body_balanced :
    (b : Budget) (content_length : ℤ) (body : Body) (rs : List (ℕ × Option ReadError))
    → IsWithin b
    → (reserve_body b content_length).1 ≡ some body
    → let r = (read_all (reserve_body b content_length).0 body rs).0 in
      let done = release_body r.0 r.1 in (done.0 ≡ b) × (release_body done.0 done.1 ≡ done)
unfolding release_body
reserve_body_balanced b size body rs v h = (
  taken (reserve_body_cases b size body h),
  release_body_once (read_all (reserve_body b size).0 body rs).0.0
      (read_all (reserve_body b size).0 body rs).0.1,
)
  where
    taken :
        ((body ≡ counting (pos 0) false) × ((reserve_body b size).0 ≡ b))
          ⊎ ((body ≡ known size false)
              × ((reserve_body b size).0 ≡ loaded b size)
              × (pos 0 ≤ℤ size))
        → (release_body
            (read_all (reserve_body b size).0 body rs).0.0
            (read_all (reserve_body b size).0 body rs).0.1).0
          ≡ b
    taken (inl (shape, same)) =
        let (shape', same') = read_all_counting b b 0 rs (loaded_zero b) in
        rw (shape, same, shape', same')
          (release_loaded b (pos (0 + (read_all b (counting (pos 0) false) rs).1)) v (omega arith))
    taken (inr (shape, same, lo)) =
        rw (shape, same, read_all_known (loaded b size) size false rs) (release_loaded b size v lo)

read-IsWithin :
    (b : Budget) (body : Body) (n : ℕ) (err : Option ReadError)
    → IsWithin b
    → IsWithin (read b body n err).0.0
unfolding read
read-IsWithin b (known size released) n err v = v
read-IsWithin b (counting reserved released) n err v =
    ground (arith, try_reserve-IsWithin b (pos n) v)

read_all-IsWithin :
    (b : Budget) (body : Body) (rs : List (ℕ × Option ReadError))
    → IsWithin b
    → IsWithin (read_all b body rs).0.0
unfolding read_all
read_all-IsWithin b body [] v = v
read_all-IsWithin b body ((n, err) ∷ rs) v =
    read_all-IsWithin (read b body n err).0.0 (read b body n err).0.1 rs
      (read-IsWithin b body n err v)

-- In a budget within its bounds, a body of unknown length reserves exactly the bytes that its reads
-- deliver, so these never number more than the room that the budget had.
pub read_all_bounded :
    (b : Budget) (rs : List (ℕ × Option ReadError))
    → IsWithin b
    → let r = read_all b (counting (pos 0) false) rs in
      (r.0.0 ≡ record b { queued = b.queued +ℤ pos r.1 }) × (b.queued +ℤ pos r.1 ≤ℤ b.limit)
read_all_bounded b rs v =
    let (shape, same) = read_all_counting b b 0 rs (loaded_zero b) in
    let within = read_all-IsWithin b (counting (pos 0) false) rs v in ground (arith, same, within)
