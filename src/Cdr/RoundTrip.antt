-- ===== src/Cdr/RoundTrip.antt =====
-- Reading back with pkg/mcap_ros2/cdr_reader.go what a CDR writer put there: the scalars in either
-- byte order, aligned to their size, and sequences of them.
use mathlib.Core.List.{append_assoc}
use native.Mathlib.Nat.{add-mod_right}
use co_scout.Prelude.{
  ℕ, suc, ◌+◌, ◌-◌, ◌*◌, ◌%◌, ◌^◌, ◌≤◌, ◌<◌, ◌≡◌, subst, ap, Bool, List, [], ◌∷◌, ◌++◌, arith,
  length, length-append, take, drop, take-length_append, drop-length_append, All,
}
use co_scout.Cdr.{CdrReader, ok, ◌>>=◌, align, read, uint8_array, index_read, array, byte_order}
use co_scout.Cdr.Words.{to_bytes, length-to_bytes, byte_order-to_bytes}

-- The bytes `bs` stand at the offset of `r`, and `post` behind them.
pub record Stands (r : CdrReader) (bs post : List ℕ) : Type 0 where
  pub pre : List ℕ
  pub at_offset : length pre ≡ r.offset
  pub split : r.data_bytes ≡ pre ++ (bs ++ post)

abbrev pub advance : CdrReader → ℕ → CdrReader
advance r n = record r { offset = r.offset + n }

slice_lem :
    (pre bs post spare : List ℕ)
    → take (length bs) (drop (length pre) ((pre ++ (bs ++ post)) ++ spare)) ≡ bs
slice_lem pre bs post spare =
    rw (append_assoc pre (bs ++ post) spare, drop-length_append pre, append_assoc bs post spare)
      (take-length_append bs (post ++ spare))

pub uint8_array-Stands :
    (r : CdrReader) (bs post : List ℕ)
    → Stands r bs post
    → uint8_array (length bs) r ≡ ok bs (advance r (length bs))
unfolding uint8_array
uint8_array-Stands r bs post s =
    rw (s.split, ← s.at_offset)
      (ground (
        arith,
        slice_lem s.pre bs post r.spare,
        length-append (s.pre ++ (bs ++ post)) r.spare,
        length-append s.pre (bs ++ post),
        length-append bs post,
      ))

-- Past the bytes read, the rest stands at the new offset.
pub Stands-advance :
    (r : CdrReader) (bs post' post : List ℕ)
    → Stands r (bs ++ post') post
    → Stands (advance r (length bs)) post' post
Stands-advance r bs post' post s = record {
  pre = s.pre ++ bs;
  at_offset = omega (arith, length-append s.pre bs, s.at_offset);
  split = rw (append_assoc s.pre bs (post' ++ post), ← append_assoc bs post' post) s.split;
}

pub Stands-front :
    (r : CdrReader) (bs post' post : List ℕ)
    → Stands r (bs ++ post') post
    → Stands r bs (post' ++ post)
Stands-front r bs post' post s = record {
  pre = s.pre;
  at_offset = s.at_offset;
  split = rw (← append_assoc bs post' post) s.split;
}

read-Stands :
    (r : CdrReader) (bs post : List ℕ) (w : ℕ)
    → length bs ≡ w
    → (r.offset - 4) % w ≡ 0
    → Stands r bs post
    → read w r ≡ ok bs (advance r w)
unfolding read align
read-Stands r bs post w e a s = ground (
  arith,
  ap length s.split,
  s.at_offset,
  length-append s.pre (bs ++ post),
  length-append bs post,
  uint8_array-Stands r bs post s,
  ap (λ n. uint8_array n r) e,
)

-- A number of `w` bytes, aligned to `w` and in the reader's byte order, is read back, and the
-- reader then stands behind it.
pub index_read-to_bytes :
    (r : CdrReader) (w v : ℕ) (post : List ℕ)
    → v < 256 ^ w
    → (r.offset - 4) % w ≡ 0
    → Stands r (to_bytes r.little_endian w v) post
    → index_read w byte_order r ≡ ok v (advance r w)
unfolding index_read
index_read-to_bytes r w v post lt a s =
    rw (read-Stands r _ post w (length-to_bytes r.little_endian w v) a s, index_read)
      (ap (λ x. ok x (advance r w)) (byte_order-to_bytes (advance r w) w v lt))

-- A sequence as a CDR writer lays it out.
unfoldable pub encoded : Bool → ℕ → List ℕ → List ℕ
encoded little w [] = []
encoded little w (v ∷ vs) = to_bytes little w v ++ encoded little w vs

-- A sequence of numbers of `w` bytes each, in the reader's byte order and aligned to `w` behind the
-- header, is read back by the loop of the array methods, which leaves the reader behind it.
pub array-encoded :
    (w : ℕ) (vs : List ℕ) (r : CdrReader) (post : List ℕ)
    → 4 ≤ r.offset
    → (r.offset - 4) % w ≡ 0
    → All (λ v. v < 256 ^ w) vs
    → Stands r (encoded r.little_endian w vs) post
    → array (index_read w byte_order) (length vs) r ≡ ok vs (advance r (length vs * w))
unfolding array encoded
array-encoded w [] r post o a h s =
    let same : r.offset ≡ r.offset + 0 * w = omega arith in
    ap (λ n. ok [] (record r { offset = n })) same
array-encoded w (v ∷ vs) r post o a h s =
    let bs : List ℕ = to_bytes r.little_endian w v in
    let rest : List ℕ = encoded r.little_endian w vs in
    let first = index_read-to_bytes r w v (rest ++ post) h.0 a (Stands-front r bs rest post s) in
    let shifted : r.offset + w - 4 ≡ r.offset - 4 + w = omega arith in
    let aligned : (r.offset + w - 4) % w ≡ 0 = rw (shifted, add-mod_right) a in
    let s' : Stands (advance r w) rest post =
      subst (λ n. Stands (advance r n) rest post) (length-to_bytes r.little_endian w v)
        (Stands-advance r bs rest post s) in
    let ih = array-encoded w vs (advance r w) post (omega arith) aligned h.1 s' in
    let total : r.offset + w + length vs * w ≡ r.offset + suc (length vs) * w = omega arith in
    rw (first, ◌>>=◌, ih) (ap (λ n. ok (v ∷ vs) (record r { offset = n })) total)
