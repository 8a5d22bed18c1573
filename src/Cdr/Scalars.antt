-- ===== src/Cdr/Scalars.antt =====
-- What `read` of pkg/mcap_ros2/cdr_reader.go answers on every branch, and what of that reaches the
-- callers of the methods.
use native.Mathlib.Nat.{mod-lt, mod-add-mod, mod_self, mod-eq_of_lt}
use co_scout.Prelude.{
  sym, ◌∙◌, ℕ, zero, suc, ◌+◌, ◌-◌, ◌%◌, ◌≤◌, ◌<◌, ◌≡◌, ◌≢◌, ◌⊎◌, ◌↔◌, inl, inr, refl, List, [],
  ◌∷◌, arith, length, ap, take, drop, ◌++◌, ltb, Bool-cases,
}
use co_scout.Cdr.{
  CdrReader, Outcome, ok, failed, panic, M, ◌>>=◌, return, align, read, uint8_array, index_read,
  array, uint8, uint16, uint32, uint64, boolean, int8, int16, int32, int64, string, boolean_array,
  string_array,
}

pub align_lem :
    (r : CdrReader) (size : ℕ)
    → 0 < size
    → 4 ≤ r.offset
    → ((align r size).offset - 4) % size ≡ 0
      × (r.offset ≤ (align r size).offset)
      × ((align r size).offset < r.offset + size)
unfolding align
align_lem r size h o =
    let d : ℕ = r.offset - 4 in
    let a : ℕ = d % size in
    let low : a < size = mod-lt d h in
    let whole : a + (size - a) ≡ size = omega arith in
    let step : (d + (size - a)) % size ≡ 0 =
      sym (mod-add-mod d size (size - a)) ∙ ap (λ x. x % size) whole ∙ mod_self size in
    let shifted : r.offset + (size - a) - 4 ≡ d + (size - a) = omega arith in
    ground (arith, low, step, shifted, ap (λ x. x % size) shifted)

multiple_unique : (x y n : ℕ) → 0 < n → x % n ≡ 0 → y % n ≡ 0 → x ≤ y → y < x + n → x ≡ y
multiple_unique x y n pos_n hx hy le lt =
    let d : ℕ = y - x in
    let less : d < n = omega arith in
    let small : d % n ≡ d = mod-eq_of_lt less in
    let plain : d ≡ 0 + d = omega arith in
    let same : d % n ≡ 0 =
      ap (λ z. z % n) plain
      ∙ ap (λ z. (z + d) % n) (sym hx)
      ∙ mod-add-mod x n d
      ∙ ap (λ z. z % n) (sum x y le)
      ∙ hy in
    omega (arith, small, same)
  where
    sum : (x y : ℕ) → x ≤ y → x + (y - x) ≡ y
    sum x y h = omega arith

align-offset :
    (r : CdrReader) (size : ℕ) → align r size ≡ record r { offset = (align r size).offset }
unfolding align
align-offset r size = ground arith

-- Where an aligned value begins is the only multiple of its size, counted from the header on, that
-- is not before the offset and less than the size behind it.
align_unique :
    (r : CdrReader) (size o : ℕ)
    → 0 < size
    → 4 ≤ r.offset
    → r.offset ≤ o
    → o < r.offset + size
    → (o - 4) % size ≡ 0
    → align r size ≡ record r { offset = o }
align_unique r size o h four low high whole =
    let found = align_lem r size h four in
    let a : ℕ = (align r size).offset in
    let same : a ≡ o = elim (Bool-cases (ltb a o)) [
      | inl lt ↦
          let e : a - 4 ≡ o - 4 =
            multiple_unique (a - 4) (o - 4) size h found.0 whole (ground (arith, found))
              (ground (arith, found)) in
          ground (arith, found)
      | inr ge ↦
          let e : o - 4 ≡ a - 4 =
            multiple_unique (o - 4) (a - 4) size h whole found.0 (ground (arith, found))
              (ground (arith, found)) in
          ground (arith, found)
    ] in
    align-offset r size ∙ ap (λ z. record r { offset = z }) same

-- `read` for a size above 1, at the offset `o` where the aligned value begins: the first from the
-- reader's offset on that is a multiple of the size behind the header's 4 bytes. It fails exactly
-- if the data ends before the reader's own offset plus the size. Otherwise it panics exactly if the
-- aligned value ends past the capacity, and else gives the bytes of the aligned value, also those
-- past the end of the data, and the reader stands behind it.
pub read_cases :
    (r : CdrReader) (size o : ℕ)
    → 1 < size
    → 4 ≤ r.offset
    → r.offset ≤ o
    → o < r.offset + size
    → (o - 4) % size ≡ 0
    → let backing = r.data_bytes ++ r.spare in
      ((read size r ≡ failed r) ↔ (length r.data_bytes < r.offset + size))
      × ((read size r ≡ panic)
          ↔ ((r.offset + size ≤ length r.data_bytes) × (length backing < o + size)))
      × ((read size r ≡ ok (take size (drop o backing)) (record r { offset = o + size }))
          ↔ ((r.offset + size ≤ length r.data_bytes) × (o + size ≤ length backing)))
unfolding read uint8_array
read_cases r size o h four low high whole =
    let at = align_unique r size o (omega arith) four low high whole in
    rw (at, read, uint8_array) (ground arith)

-- No error reaches a caller.
abbrev pub NeverFails {ℓ} : {A : Type ℓ} → M A → Type ℓ
NeverFails m = (r r' : CdrReader) → m r ≢ failed r'

index_read-NeverFails {ℓ} :
    {A : Type ℓ} (size : ℕ) (f : CdrReader → List ℕ → A) → NeverFails (index_read size f)
unfolding index_read
index_read-NeverFails size f r r' e = ground arith

return-NeverFails {ℓ} : {A : Type ℓ} (a : A) → NeverFails (return a)
return-NeverFails a r r' e = cc

bind_cases {ℓ κ} :
    {A : Type ℓ} {B : Type κ} (m : M A) (f : A → M B) (r r' : CdrReader)
    → (o : Outcome A) → m r ≡ o
    → (m >>= f) r ≡ failed r'
    → (o ≡ failed r') ⊎ ((a : A) × (r1 : CdrReader) × (o ≡ ok a r1) × (f a r1 ≡ failed r'))
bind_cases m f r r' (ok a r1) e h = inr (a, r1, refl, rw (e, ◌>>=◌) at h)
bind_cases m f r r' (failed r1) e h = inl (cc (rw (e, ◌>>=◌) at h))
bind_cases m f r r' panic e h = cc (rw (e, ◌>>=◌) at h)

bind-NeverFails {ℓ κ} :
    {A : Type ℓ} {B : Type κ} (m : M A) (f : A → M B)
    → NeverFails m
    → ((a : A) → NeverFails (f a))
    → NeverFails (m >>= f)
bind-NeverFails m f hm hf r r' e = elim (bind_cases m f r r' (m r) refl e) [
  | inl x ↦ hm r r' x
  | inr (a, r1, x, y) ↦ hf a r1 r' y
]

array-NeverFails {ℓ} : {A : Type ℓ} (m : M A) (n : ℕ) → NeverFails m → NeverFails (array m n)
unfolding array
array-NeverFails m zero h = return-NeverFails []
array-NeverFails m (suc n) h =
    bind-NeverFails m _ h
      λ x. bind-NeverFails (array m n) _ (array-NeverFails m n h) λ xs. return-NeverFails (x ∷ xs)

string-NeverFails : NeverFails string
unfolding string
string-NeverFails = bind-NeverFails uint32 _ (index_read-NeverFails 4 _) λ n r r' e. ground arith

-- No method for an integer, a Boolean or a string, and none for an array of Booleans or of strings
-- of any length, ever hands its caller an error, whatever the data is.
pub methods-NeverFail :
    NeverFails uint8
    × NeverFails uint16
    × NeverFails uint32
    × NeverFails uint64
    × NeverFails boolean
    × NeverFails int8
    × NeverFails int16
    × NeverFails int32
    × NeverFails int64
    × NeverFails string
    × ((n : ℕ) → NeverFails (boolean_array n))
    × ((n : ℕ) → NeverFails (string_array n))
unfolding uint8 uint16 uint32 uint64 boolean int8 int16 int32 int64 boolean_array string_array
methods-NeverFail = (
  index_read-NeverFails 1 _,
  index_read-NeverFails 2 _,
  index_read-NeverFails 4 _,
  index_read-NeverFails 8 _,
  bind-NeverFails uint8 _ (index_read-NeverFails 1 _) (λ b. return-NeverFails _),
  bind-NeverFails uint8 _ (index_read-NeverFails 1 _) (λ b. return-NeverFails _),
  bind-NeverFails uint16 _ (index_read-NeverFails 2 _) (λ b. return-NeverFails _),
  bind-NeverFails uint32 _ (index_read-NeverFails 4 _) (λ b. return-NeverFails _),
  bind-NeverFails uint64 _ (index_read-NeverFails 8 _) (λ b. return-NeverFails _),
  string-NeverFails,
  λ n.
      array-NeverFails boolean n
        (bind-NeverFails uint8 _ (index_read-NeverFails 1 _) (λ b. return-NeverFails _)),
  λ n. array-NeverFails string n string-NeverFails,
)
