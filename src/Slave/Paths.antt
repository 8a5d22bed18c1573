-- ===== src/Slave/Paths.antt =====
-- Paths `slave://slaveID/absolutePath`: FormatSlaveFilePath of internal/master/types.go, and
-- IsSlaveFile, IsValidSlaveID and ParseSlaveFilePath of internal/master/file_manager.go.
pub mod RoundTrip
mod Tests
use co_scout.Prelude.{
  ℕ, Bool, true, false, not, ◌&&◌, ◌||◌, List, [], ◌∷◌, ◌++◌, Option, none, some, leb, ◌==◌,
  if◌then◌else◌, Text, codes, has_prefix, length, drop,
}

abbrev pub scheme : Text
scheme = codes "slave://"

pub data PathError : Type 0 where
  not_slave_file_path invalid_slave_file_path : PathError

-- Go's (slaveID, remotePath, err).
pub data Parsed : Type 0 where
  parsed : Text → Text → Parsed
  rejected : PathError → Parsed

-- The path with a slash in front, unless it has one.
abbrev pub absolute : Text → Text
absolute file_path = if has_prefix file_path (codes "/") then file_path else codes "/" ++ file_path

unfoldable pub format_slave_file_path : Text → Text → Text
format_slave_file_path slave_id file_path = scheme ++ (slave_id ++ absolute file_path)

unfoldable pub is_slave_file : Text → Bool
is_slave_file file_path = has_prefix file_path scheme

is_hex : ℕ → Bool
is_hex c = leb b'0' c && leb c b'9' || leb b'a' c && leb c b'f' || leb b'A' c && leb c b'F'

-- The loop over the characters. A byte of a character beyond ASCII is no hexadecimal digit.
all_hex : Text → Bool
unfolding is_hex
all_hex [] = true
all_hex (c ∷ cs) = is_hex c && all_hex cs

unfoldable pub is_valid_slave_id : Text → Bool
unfolding all_hex
is_valid_slave_id slave_id = if not (length slave_id == 16) then false else all_hex slave_id

-- `strings.SplitN(s, "/", 2)`: what stands before the first slash, and what stands behind it.
-- Nothing, if there is no slash.
unfoldable pub split_slash : Text → Option (Text × Text)
split_slash [] = none
split_slash (c ∷ cs) =
    let rest = split_slash cs in
    if c == b'/' then some ([], cs) else (elim rest [ none ↦ none | some (a, b) ↦ some (c ∷ a, b) ])

parse_parts : Option (Text × Text) → Parsed
parse_parts none = rejected invalid_slave_file_path
parse_parts (some ([], remote)) = rejected invalid_slave_file_path
parse_parts (some (c ∷ cs, remote)) = parsed (c ∷ cs) (codes "/" ++ remote)

parse_suffix : Text → Parsed
unfolding parse_parts
parse_suffix [] = rejected invalid_slave_file_path
parse_suffix (c ∷ cs) = parse_parts (split_slash (c ∷ cs))

unfoldable pub parse_slave_file_path : Text → Parsed
unfolding parse_suffix
parse_slave_file_path file_path =
    if not (is_slave_file file_path)
    then rejected not_slave_file_path
    else parse_suffix (drop (length scheme) file_path)
