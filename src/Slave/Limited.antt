-- ===== src/Slave/Limited.antt =====
-- LimitedReadCloser of internal/master/file_manager.go. The wrapped reader is a function from the
-- length of the buffer that it is handed to the number of bytes and the error that it returns.
mod Tests
use co_scout.Prelude.{
  ℕ, zero, suc, ◌+◌, ◌-◌, ◌≤◌, ◌<◌, ◌≡◌, ◌⊎◌, refl, Bool, true, false, List, [], ◌∷◌, Option, none,
  some, leb, ltb, if◌then◌else◌, arith, min,
}

pub data ReadError : Type 0 where
  eof : ReadError
  other : ℕ → ReadError

-- One call of the wrapped reader. A reader that keeps to the contract of io.Reader does not
-- return more bytes than it was handed room for.
abbrev pub Reader : Type 0
Reader = ℕ → ℕ × Option ReadError

abbrev pub IsReader : Reader → Type 0
IsReader f = (n : ℕ) → (f n).0 ≤ n

pub record LimitedReadCloser : Type 0 where
  pub limit : ℕ
  pub bytes_read : ℕ

unfoldable pub new_limited_read_closer : ℕ → LimitedReadCloser
new_limited_read_closer limit = record { limit = limit; bytes_read = 0 }

-- A read into a buffer of `size` bytes: the state behind it, and Go's (n, err).
unfoldable pub read : LimitedReadCloser → Reader → ℕ → LimitedReadCloser × (ℕ × Option ReadError)
read lrc f size =
    if leb lrc.limit lrc.bytes_read
    then (lrc, (0, some eof))
    else let remaining = lrc.limit - lrc.bytes_read in
      let (n, err) = f (if ltb remaining size then remaining else size) in
      let total = lrc.bytes_read + n in
      (record lrc { bytes_read = total }, (n, if leb lrc.limit total then some eof else err))

-- A series of reads, and the number of bytes delivered.
unfoldable pub read_all : LimitedReadCloser → List (Reader × ℕ) → LimitedReadCloser × ℕ
read_all lrc [] = (lrc, 0)
read_all lrc ((f, size) ∷ rs) =
    let (lrc', (n, err)) = read lrc f size in
    let (end, total) = read_all lrc' rs in (end, n + total)

abbrev pub AllReaders : List (Reader × ℕ) → Type 0
AllReaders [] = Unit {0}
AllReaders ((f, size) ∷ rs) = IsReader f × AllReaders rs

-- Over a reader that keeps to the contract of io.Reader and within the limit, a read delivers no
-- more than its buffer holds and the limit leaves; it counts what it delivers; and once the limit
-- is reached it says so, whatever the wrapped reader said.
pub read_lem :
    (lrc : LimitedReadCloser) (f : Reader) (size : ℕ)
    → IsReader f
    → lrc.bytes_read ≤ lrc.limit
    → let r = read lrc f size in
      (r.1.0 ≤ size)
      × (r.0.bytes_read ≡ lrc.bytes_read + r.1.0)
      × (r.0.bytes_read ≤ lrc.limit)
      × (r.0.limit ≡ lrc.limit)
      × ((r.0.bytes_read < lrc.limit) ⊎ (r.1.1 ≡ some eof))
unfolding read
read_lem lrc f size h le = ground (arith, h (lrc.limit - lrc.bytes_read), h size)

read_all_counted :
    (lrc : LimitedReadCloser) (rs : List (Reader × ℕ))
    → AllReaders rs
    → lrc.bytes_read ≤ lrc.limit
    → ((read_all lrc rs).0.bytes_read ≡ lrc.bytes_read + (read_all lrc rs).1)
      × ((read_all lrc rs).0.bytes_read ≤ lrc.limit)
unfolding read_all
read_all_counted lrc [] h le = omega arith
read_all_counted lrc ((f, size) ∷ rs) h le =
    let first = read_lem lrc f size h.0 le in
    let rest = read_all_counted (read lrc f size).0 rs h.1 (omega arith) in
    omega (arith, first, rest)

-- However it is read, over readers that keep to the contract of io.Reader, a limited reader never
-- delivers more than the limit.
pub read_all-le_limit :
    (limit : ℕ) (rs : List (Reader × ℕ))
    → AllReaders rs
    → (read_all (new_limited_read_closer limit) rs).1 ≤ limit
unfolding new_limited_read_closer
read_all-le_limit limit rs h =
    let counted = read_all_counted (new_limited_read_closer limit) rs h (omega arith) in
    omega (arith, counted)
