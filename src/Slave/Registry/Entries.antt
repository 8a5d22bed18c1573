-- ===== src/Slave/Registry/Entries.antt =====
-- What each method of internal/master/types.go does to the entry of every id.
use co_scout.Prelude.{
  ◌≡◌, refl, [], ◌∷◌, Option, none, some, if◌then◌else◌, Text, text_eq, text_eq_iff, arith,
}
use co_scout.Prelude.Int.{ℤ}
use co_scout.Slave.Registry.{
  SlaveInfo, Registry, online, timed_out, get_slave, store, unregister, update_heartbeat,
  check_and_cleanup, is_late,
}

unfoldable pub map_slave : (SlaveInfo → SlaveInfo) → Option SlaveInfo → Option SlaveInfo
map_slave f none = none
map_slave f (some s) = some (f s)

pub get_slave-store :
    (r : Registry) (id j : Text) (s : SlaveInfo)
    → get_slave (store r id s) j ≡ (if text_eq id j then some s else get_slave r j)
unfolding get_slave store
get_slave-store [] id j s = refl
get_slave-store ((k, t) ∷ r) id j s =
    ground (arith, text_eq_iff k id, text_eq_iff k j, text_eq_iff id j, get_slave-store r id j s)

pub get_slave-unregister :
    (r : Registry) (id j : Text)
    → get_slave (unregister r id) j ≡ (if text_eq id j then none else get_slave r j)
unfolding get_slave unregister
get_slave-unregister [] id j = ground arith
get_slave-unregister ((k, t) ∷ r) id j =
    ground (arith, text_eq_iff k id, text_eq_iff k j, text_eq_iff id j, get_slave-unregister r id j)

abbrev pub seen : ℤ → SlaveInfo → SlaveInfo
seen now s = record s { last_seen = now; status = online }

pub get_slave-update_heartbeat :
    (r : Registry) (id j : Text) (now : ℤ)
    → get_slave (update_heartbeat r id now) j
      ≡ (if text_eq id j then map_slave (seen now) (get_slave r j) else get_slave r j)
unfolding get_slave update_heartbeat map_slave
get_slave-update_heartbeat [] id j now = ground arith
get_slave-update_heartbeat ((k, t) ∷ r) id j now = ground (
  arith,
  text_eq_iff k id,
  text_eq_iff k j,
  text_eq_iff id j,
  get_slave-update_heartbeat r id j now,
)

abbrev pub marked : ℤ → ℤ → SlaveInfo → SlaveInfo
marked timeout now s = if is_late now timeout s then record s { status = timed_out } else s

pub get_slave-check_and_cleanup :
    (r : Registry) (timeout now : ℤ) (j : Text)
    → get_slave (check_and_cleanup r timeout now).0 j
      ≡ map_slave (marked timeout now) (get_slave r j)
unfolding get_slave check_and_cleanup map_slave
get_slave-check_and_cleanup [] timeout now j = refl
get_slave-check_and_cleanup ((k, t) ∷ r) timeout now j =
    ground (arith, get_slave-check_and_cleanup r timeout now j)
