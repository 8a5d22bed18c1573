-- ===== src/RateLimit/Tests.antt =====
-- pkg/upload/transport_limiter.go on small inputs.
use co_scout.Prelude.{◌≡◌, refl, false, [], ◌∷◌, none, some}
use co_scout.Prelude.Int.{pos, negsuc}
use co_scout.RateLimit.{
  Limiter, build_limiter, Reader, Wait, Body, read_all, new_rate_limited_read_closer, read,
  not_seekable, seek,
}
use co_scout.RateLimit.Laws.{delivered}

abbrev small : Limiter
small = record { limit = 10; burst = 4 }

abbrev full : Reader
full n = (n, none)

abbrev granted : Wait
granted n = none

-- A body of seven bytes is read four and three at a time.
chunks : delivered (read_all small granted ((full, 7) ∷ (full, 3) ∷ [])) ≡ 7
unfolding read_all read
chunks = refl

plain : Body
plain = record { body = 1; seeks = false; limiters = [] }

no_seek : (seek plain (λ b o. (o, none)) (pos 3)).1 ≡ some not_seekable
unfolding seek plain
no_seek = refl

not_limited : new_rate_limited_read_closer (some plain) (build_limiter (negsuc 4)) ≡ some plain
unfolding new_rate_limited_read_closer build_limiter
not_limited = refl
