-- ===== src/Slave/Limited/Tests.antt =====
-- Limited readers at concrete reads (internal/master/file_manager.go).
use co_scout.Prelude.{◌≡◌, refl, none, [], ◌∷◌}
use co_scout.Slave.Limited.{LimitedReadCloser, Reader, new_limited_read_closer, read, read_all}

-- A reader that fills every buffer.
abbrev full : Reader
full n = (n, none)

abbrev half_read : LimitedReadCloser
half_read = record { limit = 10; bytes_read = 6 }

cut_to_limit :
    (read_all (new_limited_read_closer 10) ((full, 6) ∷ (full, 6) ∷ (full, 6) ∷ [])).1 ≡ 10
unfolding read_all new_limited_read_closer read
cut_to_limit = refl
