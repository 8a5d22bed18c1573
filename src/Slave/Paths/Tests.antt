-- ===== src/Slave/Paths/Tests.antt =====
-- Slave file paths at concrete texts.
use co_scout.Prelude.{◌≡◌, refl, true, codes, Text, has_prefix}
use co_scout.Slave.Paths.{
  absolute, parsed, rejected, invalid_slave_file_path, format_slave_file_path, is_valid_slave_id,
  is_slave_file, split_slash, parse_slave_file_path,
}
use co_scout.Slave.Paths.RoundTrip.{parse-format_valid}

abbrev device : Text
device = codes "0123456789abcDEF"

device_valid : is_valid_slave_id device ≡ true
unfolding is_valid_slave_id
device_valid = refl

no_id : parse_slave_file_path (codes "slave:///var/log") ≡ rejected invalid_slave_file_path
unfolding parse_slave_file_path is_slave_file has_prefix split_slash
no_id = refl

one_file :
    parse_slave_file_path (codes "slave://ab/var/log") ≡ parsed (codes "ab") (codes "/var/log")
unfolding parse_slave_file_path is_slave_file has_prefix split_slash
one_file = refl

parse-format_valid_example :
    parse_slave_file_path (format_slave_file_path device (codes "var/log"))
    ≡ parsed device (absolute (codes "var/log"))
parse-format_valid_example = parse-format_valid device (codes "var/log") device_valid
