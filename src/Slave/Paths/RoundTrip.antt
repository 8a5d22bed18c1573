-- ===== src/Slave/Paths/RoundTrip.antt =====
-- Formatting a slave file path and parsing it (internal/master/types.go, file_manager.go).
use co_scout.Prelude.{
  Bool-cases, ◌∙◌, ℕ, ◌≡◌, ◌≢◌, inl, inr, refl, ap, true, [], ◌∷◌, ◌++◌, Option, none, some, arith,
  Text, has_prefix, has_prefix_append, length, drop, All, ◌==◌,
}
use co_scout.Slave.Paths.{
  scheme, absolute, parsed, format_slave_file_path, is_slave_file, split_slash,
  parse_slave_file_path, parse_suffix, parse_parts, is_valid_slave_id, all_hex,
}

-- A text without a slash.
abbrev pub NoSlash : Text → Type 0
NoSlash = All (λ c. c ≢ b'/')

split_slash-append : (a b : Text) → NoSlash a → split_slash (a ++ (b'/' ∷ b)) ≡ some (a, b)
unfolding split_slash
split_slash-append [] b h = refl
split_slash-append (c ∷ a) b h = ground (arith, split_slash-append a b h.1)

parse-scheme :
    (c : ℕ) (cs rest : Text)
    → NoSlash (c ∷ cs)
    → parse_slave_file_path (scheme ++ ((c ∷ cs) ++ (b'/' ∷ rest))) ≡ parsed (c ∷ cs) (b'/' ∷ rest)
unfolding parse_slave_file_path is_slave_file
parse-scheme c cs rest h =
    rw (has_prefix_append scheme ((c ∷ cs) ++ (b'/' ∷ rest)), split_slash-append (c ∷ cs) rest h)

absolute-slash : (p : Text) → (rest : Text) × (absolute p ≡ b'/' ∷ rest)
unfolding has_prefix
absolute-slash [] = ([], refl)
absolute-slash (c ∷ cs) = elim (Bool-cases (c == b'/')) [
  | inl e ↦ (cs, ground arith)
  | inr n ↦ (c ∷ cs, ground arith)
]

-- A slave whose id is not empty and has no slash: its formatted file paths are parsed back to the
-- id and to the path with a slash in front.
pub parse-format :
    (slave_id path : Text)
    → slave_id ≢ []
    → NoSlash slave_id
    → parse_slave_file_path (format_slave_file_path slave_id path) ≡ parsed slave_id (absolute path)
unfolding format_slave_file_path
parse-format [] path n h = absurd (n refl)
parse-format (c ∷ cs) path n h =
    let (rest, e) = absolute-slash path in rw e (parse-scheme c cs rest h)

all_hex-NoSlash : (s : Text) → all_hex s ≡ true → NoSlash s
unfolding all_hex
all_hex-NoSlash [] h = tt
all_hex-NoSlash (c ∷ s) h = ground (arith, all_hex-NoSlash s)

valid-NoSlash : (s : Text) → is_valid_slave_id s ≡ true → (s ≢ []) × NoSlash s
unfolding is_valid_slave_id
valid-NoSlash [] h = cc
valid-NoSlash (c ∷ s) h = ground (arith, all_hex-NoSlash (c ∷ s))

-- The formatted path of a valid slave id is parsed to the id and the path made absolute, whatever
-- the path.
pub parse-format_valid :
    (slave_id path : Text)
    → is_valid_slave_id slave_id ≡ true
    → parse_slave_file_path (format_slave_file_path slave_id path) ≡ parsed slave_id (absolute path)
parse-format_valid slave_id path h =
    let (n, no_slash) = valid-NoSlash slave_id h in parse-format slave_id path n no_slash

split_slash-some : (s a b : Text) → split_slash s ≡ some (a, b) → (s ≡ a ++ (b'/' ∷ b)) × NoSlash a
unfolding split_slash
split_slash-some [] a b e = cc
split_slash-some (c ∷ s) [] b e = ground arith
split_slash-some (c ∷ s) (x ∷ a) b e = ground (arith, split_slash-some s a b)

has_prefix-some : (p s : Text) → has_prefix s p ≡ true → s ≡ p ++ drop (length p) s
unfolding has_prefix
has_prefix-some [] s h = refl
has_prefix-some (c ∷ p) [] h = cc
has_prefix-some (c ∷ p) (x ∷ s) h = ground (arith, has_prefix-some p s)

absolute_id : (rest : Text) → absolute (b'/' ∷ rest) ≡ b'/' ∷ rest
unfolding has_prefix
absolute_id rest = refl

parse_parts-some :
    (parts : Option (Text × Text)) (slave_id path : Text)
    → parse_parts parts ≡ parsed slave_id path
    → (b : Text) × (parts ≡ some (slave_id, b)) × (slave_id ≢ []) × (path ≡ b'/' ∷ b)
unfolding parse_parts
parse_parts-some none slave_id path e = cc
parse_parts-some (some ([], b)) slave_id path e = cc
parse_parts-some (some (c ∷ cs, b)) slave_id path e = (b, ground arith, ground arith, ground arith)

parse_suffix-some :
    (s slave_id path : Text)
    → parse_suffix s ≡ parsed slave_id path
    → (s ≡ slave_id ++ absolute path) × (slave_id ≢ []) × NoSlash slave_id
unfolding parse_suffix
parse_suffix-some [] slave_id path e = cc
parse_suffix-some (c ∷ s) slave_id path e =
    let (b, f, n, p) = parse_parts-some (split_slash (c ∷ s)) slave_id path e in
    let (whole, no_slash) = split_slash-some (c ∷ s) slave_id b f in
    (rw (p, absolute_id b) whole, n, no_slash)

-- A path that is parsed is the format of the id and the path that are answered; the id
-- is not empty and has no slash.
pub format-parse :
    (file_path slave_id path : Text)
    → parse_slave_file_path file_path ≡ parsed slave_id path
    → (file_path ≡ format_slave_file_path slave_id path) × (slave_id ≢ []) × NoSlash slave_id
unfolding parse_slave_file_path is_slave_file format_slave_file_path
format-parse file_path slave_id path e = elim (Bool-cases (has_prefix file_path scheme)) [
  | inl h ↦
      let (whole, n, no_slash) =
        parse_suffix-some (drop (length scheme) file_path) slave_id path (rw h at e) in
      (has_prefix-some scheme file_path h ∙ ap (◌++◌ scheme) whole, n, no_slash)
  | inr h ↦ cc (rw h at e)
]
