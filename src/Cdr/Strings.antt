-- ===== src/Cdr/Strings.antt =====
-- Strings of pkg/mcap_ros2/cdr_reader.go: a length that counts a terminator, the bytes, the
-- terminator.
use co_scout.Prelude.{
  ℕ, suc, ◌+◌, ◌-◌, ◌%◌, ◌^◌, ◌<◌, ◌≡◌, subst, ap, List, [], ◌∷◌, ◌++◌, arith, length, leb, false,
}
use co_scout.Cdr.{CdrReader, ok, ◌>>=◌, uint32, string, string_body}
use co_scout.Cdr.Words.{to_bytes, length-to_bytes}
use co_scout.Cdr.RoundTrip.{
  Stands, advance, Stands-front, Stands-advance, index_read-to_bytes, uint8_array-Stands,
}

string_body-Stands :
    (r : CdrReader) (str : List ℕ) (terminator : ℕ) (post : List ℕ)
    → Stands r (str ++ terminator ∷ []) post
    → string_body (length str + 1) r ≡ ok str (advance r (length str + 1))
unfolding string_body
string_body-Stands r [] terminator post s = ground arith
string_body-Stands r (c ∷ str) terminator post s =
    let body =
      uint8_array-Stands r (c ∷ str) ((terminator ∷ []) ++ post)
        (Stands-front r (c ∷ str) (terminator ∷ []) post s) in
    let n : suc (length str) + 1 - 1 ≡ suc (length str) = omega arith in
    let long : leb (suc (length str) + 1) 1 ≡ false = ground arith in
    let end : r.offset + suc (length str) + 1 ≡ r.offset + (suc (length str) + 1) = omega arith in
    rw (long, n, ◌>>=◌, body) (ap (λ o. ok (c ∷ str) (record r { offset = o })) end)

-- A string that fits a uint32 with its terminator is read back, from an offset that is aligned to
-- 4, and the reader then stands behind the terminator. The terminator's value is not looked at.
pub string-Stands :
    (r : CdrReader) (str : List ℕ) (terminator : ℕ) (post : List ℕ)
    → length str + 1 < 2 ^ 32
    → (r.offset - 4) % 4 ≡ 0
    → Stands r (to_bytes r.little_endian 4 (length str + 1) ++ (str ++ terminator ∷ [])) post
    → string r ≡ ok str (advance r (length str + 5))
unfolding string uint32
string-Stands r str terminator post lt a s =
    let word : List ℕ = to_bytes r.little_endian 4 (length str + 1) in
    let rest : List ℕ = str ++ terminator ∷ [] in
    let first =
      index_read-to_bytes r 4 (length str + 1) (rest ++ post) (omega arith) a
        (Stands-front r word rest post s) in
    let s' : Stands (advance r 4) rest post =
      subst (λ n. Stands (advance r n) rest post)
        (length-to_bytes r.little_endian 4 (length str + 1)) (Stands-advance r word rest post s) in
    let end : r.offset + 4 + (length str + 1) ≡ r.offset + (length str + 5) = omega arith in
    rw (first, ◌>>=◌, string_body-Stands (advance r 4) str terminator post s')
      (ap (λ o. ok str (record r { offset = o })) end)
