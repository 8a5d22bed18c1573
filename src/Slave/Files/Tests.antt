-- ===== src/Slave/Files/Tests.antt =====
-- Files opened by the file manager at concrete states (internal/master/file_manager.go).
use co_scout.Prelude.{
  ℕ, Option, ◌≡◌, refl, true, false, some, none, [], ◌∷◌, codes, Text, text_eq, Bool, has_prefix,
}
use co_scout.Prelude.Int.{ℤ, pos}
use co_scout.Slave.Paths.{is_valid_slave_id, is_slave_file}
use co_scout.Slave.Registry.{SlaveInfo, Registry, get_slave, online}
use co_scout.Slave.Files.{FileInfo}

abbrev device : Text
device = codes "0123456789abcdef"

abbrev slave : SlaveInfo
slave = record {
  id = device;
  ip = codes "10.0.0.1";
  port = 80;
  last_seen = pos 0;
  status = online;
  version = [];
  capabilities = [];
  file_prefix = [];
}

abbrev registry : Registry
registry = (device, slave) ∷ []

abbrev opens : Text → Bool
opens path = true

abbrev responds : SlaveInfo → Text → ℤ → Option ℕ
responds s path n = some 200

abbrev at : Text → FileInfo
at path = record { path = path; size = pos 7; sha256 = []; file_name = [] }

device_valid : is_valid_slave_id device ≡ true
unfolding is_valid_slave_id
device_valid = refl

registered : get_slave registry device ≡ some slave
unfolding get_slave text_eq
registered = refl

none_registered : get_slave [] device ≡ none
unfolding get_slave
none_registered = refl

local_path : is_slave_file (codes "/var/log/a") ≡ false
unfolding is_slave_file has_prefix
local_path = refl
