-- ===== src/Slave/Registry/Tests.antt =====
-- The slave registry at concrete states (internal/master/types.go).
use co_scout.Prelude.{◌≡◌, refl, true, false, some, [], ◌∷◌, codes, text_eq, List}
use co_scout.Prelude.Int.{ℤ, pos}
use co_scout.Slave.Registry.{
  SlaveInfo, Registry, Operation, online, registers, beats, cleans, run, get_slave, register,
}
use co_scout.Slave.Registry.Stable.{AtAddress, run-AtAddress}
use co_scout.Slave.Registry.Codes.{TaskResponse, invalid_time_window, time_window_not_ready}

abbrev first : SlaveInfo
first = record {
  id = codes "s1";
  ip = codes "10.0.0.1";
  port = 80;
  last_seen = pos 0;
  status = online;
  version = [];
  capabilities = [];
  file_prefix = [];
}

-- Another machine that claims the same id.
abbrev impostor : SlaveInfo
impostor = record first { ip = codes "10.0.0.9" }

abbrev one_slave : Registry
one_slave = (codes "s1", first) ∷ []

abbrev history : List (Operation × ℤ)
history = (registers impostor, pos 5) ∷ (beats (codes "s1"), pos 7) ∷ (cleans (pos 3), pos 20) ∷ []

first_stored : get_slave one_slave (codes "s1") ≡ some first
unfolding get_slave text_eq
first_stored = refl

accepted_again : (register one_slave first (pos 9)).1 ≡ true
unfolding register get_slave text_eq
accepted_again = refl

run-AtAddress_example : AtAddress (run one_slave history) (codes "s1") first
run-AtAddress_example =
    run-AtAddress one_slave (codes "s1") first history (tt, (tt, (tt, tt)))
      (first, first_stored, refl, refl)

abbrev not_ready : TaskResponse
not_ready = record { task_id = []; success = false; error_code = time_window_not_ready; error = [] }

abbrev invalid : TaskResponse
invalid = record not_ready { error_code = invalid_time_window }
