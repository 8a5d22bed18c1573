-- ===== src/RateLimit/Laws.antt =====
-- pkg/upload/transport_limiter.go: the bursts, and what a limited reader waits for.
use co_scout.Prelude.{
  ℕ, ◌+◌, ◌/◌, ◌≤◌, ◌<◌, ◌≡◌, refl, List, [], ◌∷◌, Option, some, ltb, if◌then◌else◌, arith, min,
  All,
}
use co_scout.Prelude.Int.{pos}
use co_scout.RateLimit.{Limiter, build_limiter, Error, Reader, Wait, clamp_burst, read, read_all}

-- The burst is a tenth of the bytes per second, kept between 64 KiB and 4 MiB.
abbrev pub burst_of : ℕ → ℕ
burst_of n = if ltb (n / 10) 65536 then 65536 else min (n / 10) 4194304

-- For every positive rate there is a limiter with that rate, whose burst is a tenth of the rate,
-- kept between 64 KiB and 4 MiB.
pub build_limiter_lem :
    (n : ℕ) → 0 < n → build_limiter (pos n) ≡ some (record { limit = n; burst = burst_of n })
unfolding build_limiter clamp_burst
build_limiter_lem n h = ground arith

-- A reader that does not return more bytes than it is handed room for.
abbrev pub KeepsContract : Reader × ℕ → Type 0
KeepsContract (f, size) = (n : ℕ) → (f n).0 ≤ n

abbrev pub delivered : List ((ℕ × Option Error) × ℕ) → ℕ
delivered [] = 0
delivered (r ∷ rs) = r.0.0 + delivered rs

abbrev pub waited : List ((ℕ × Option Error) × ℕ) → ℕ
waited [] = 0
waited (r ∷ rs) = r.1 + waited rs

read_waited :
    (l : Limiter) (wait : Wait) (f : Reader) (size : ℕ)
    → 0 < l.burst
    → ((n : ℕ) → (f n).0 ≤ n)
    → let r = read l wait f size in (r.0.0 ≡ r.1) × (r.1 ≤ l.burst) × (r.0.0 ≤ size)
unfolding read
read_waited l wait f size b h = ground (arith, h l.burst, h size)

-- Over readers that keep to the contract of io.Reader and with a limiter of positive burst, each
-- read waits for as many tokens as the bytes that it delivers, and never for more than the burst,
-- beyond which WaitN would refuse; so all bytes are waited for.
pub read_all-waited :
    (l : Limiter) (wait : Wait) (rs : List (Reader × ℕ))
    → 0 < l.burst
    → All KeepsContract rs
    → (waited (read_all l wait rs) ≡ delivered (read_all l wait rs))
      × All (λ r. r.1 ≤ l.burst) (read_all l wait rs)
unfolding read_all
read_all-waited l wait [] b h = (refl, tt)
read_all-waited l wait ((f, size) ∷ rs) b h =
    let first = read_waited l wait f size b h.0 in
    let rest = read_all-waited l wait rs b h.1 in (omega (arith, first, rest), (first.1, rest.1))
