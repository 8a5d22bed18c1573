-- ===== src/RateLimit.antt =====
-- pkg/upload/transport_limiter.go: request and response bodies that are read at a limited rate. A
-- `rate.Limiter` is its limit and its burst; what WaitN answers is a parameter, as is the reader
-- that is wrapped: a function from the length of the buffer to Go's (n, err).
pub mod Laws
mod Tests
use co_scout.Prelude.{
  ℕ, zero, suc, ◌+◌, ◌-◌, ◌*◌, ◌/◌, ◌^◌, Bool, true, false, not, ◌&&◌, ◌||◌, List, [], ◌∷◌, Option,
  none, some, is_some, ltb, leb, ◌==◌, if◌then◌else◌,
}
use co_scout.Prelude.Int.{ℤ, pos, negsuc}

pub record Limiter : Type 0 where
  pub limit : ℕ
  pub burst : ℕ

clamp_burst : ℕ → ℕ
clamp_burst burst =
    let least = if ltb burst (64 * 1024) then 64 * 1024 else burst in
    if ltb (4 * 1024 * 1024) least then 4 * 1024 * 1024 else least

-- No limiter is Go's nil.
unfoldable pub build_limiter : ℤ → Option Limiter
unfolding clamp_burst
build_limiter (negsuc n) = none
build_limiter (pos n) =
    if leb n 0
    then none
    else let burst_limit = if ltb (2 ^ 31 - 1) n then 2 ^ 31 - 1 else n in
      some (record { limit = n; burst = clamp_burst (burst_limit / 10) })

-- An error of the reader, or of the wait.
pub data Error : Type 0 where
  read_error wait_error : ℕ → Error
  not_seekable nil_round_tripper : Error

abbrev pub Reader : Type 0
Reader = ℕ → ℕ × Option Error

-- WaitN: the error, if there is one.
abbrev pub Wait : Type 0
Wait = ℕ → Option Error

unfoldable pub max_chunk : Limiter → ℕ
max_chunk l = if leb l.burst 0 then 64 * 1024 else l.burst

wait_after : Wait → ℕ → Option Error → Option Error
wait_after wait n (some e) = some e
wait_after wait n none = wait n

-- A read of the limited reader: Go's (n, err), and the number of tokens that were waited for.
unfoldable pub read : Limiter → Wait → Reader → ℕ → (ℕ × Option Error) × ℕ
unfolding max_chunk wait_after
read l wait f size =
    if size == 0
    then ((0, none), 0)
    else let (n, err) = f (if ltb (max_chunk l) size then max_chunk l else size) in
      if ltb 0 n then ((n, wait_after wait n err), n) else ((n, err), 0)

-- Reads into buffers of the given sizes: each result with the tokens waited for.
unfoldable pub read_all : Limiter → Wait → List (Reader × ℕ) → List ((ℕ × Option Error) × ℕ)
read_all l wait [] = []
read_all l wait ((f, size) ∷ rs) = read l wait f size ∷ read_all l wait rs

-- A body, with whether the one below can seek, and the limiters around its reads, the outermost
-- first.
pub record Body : Type 0 where
  pub body : ℕ
  pub seeks : Bool
  pub limiters : List Limiter

-- A body is nil, or is read through the limiter if there is one; a seek goes to the body below.
unfoldable pub new_rate_limited_read_closer : Option Body → Option Limiter → Option Body
new_rate_limited_read_closer none l = none
new_rate_limited_read_closer (some b) none = some b
new_rate_limited_read_closer (some b) (some l) = some (record b { limiters = l ∷ b.limiters })

unfoldable pub seek : Body → (ℕ → ℤ → ℤ × Option Error) → ℤ → ℤ × Option Error
seek b below offset = if not b.seeks then (pos 0, some not_seekable) else below b.body offset

abbrev pub RoundTripper : Type 0
RoundTripper = Option Body → Option (Option Body) × Option Error

pub record Transport : Type 0 where
  pub upload_limiter : Option Limiter
  pub download_limiter : Option Limiter
  pub transport : Option RoundTripper

limit_response :
    Option Limiter → Option (Option Body) × Option Error → Option (Option Body) × Option Error
unfolding new_rate_limited_read_closer
limit_response l (none, err) = (none, err)
limit_response l (some body, err) = (some (new_rate_limited_read_closer body l), err)

-- The response, if there is one, with its body.
unfoldable pub round_trip : Transport → Option Body → Option (Option Body) × Option Error
unfolding limit_response new_rate_limited_read_closer
round_trip t body = elim t.transport [
  | none ↦ (none, some nil_round_tripper)
  | some trip ↦
      limit_response t.download_limiter (trip (new_rate_limited_read_closer body t.upload_limiter))
]

-- The transport as it is, or limited.
pub data Tripper : Type 0 where
  unlimited : Option RoundTripper → Tripper
  limited : Transport → Tripper

is_zero : ℤ → Bool
is_zero (pos n) = n == 0
is_zero (negsuc n) = false

unfoldable pub new_rate_limited_transport : ℤ → ℤ → Option RoundTripper → Tripper
unfolding is_zero build_limiter
new_rate_limited_transport upload_limit download_limit transport =
    if is_zero upload_limit && is_zero download_limit
    then unlimited transport
    else limited (record {
      upload_limiter = build_limiter upload_limit;
      download_limiter = build_limiter download_limit;
      transport = transport;
    })
