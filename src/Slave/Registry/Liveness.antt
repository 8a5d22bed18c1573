-- ===== src/Slave/Registry/Liveness.antt =====
-- When a slave counts as online in internal/master/types.go.
use co_scout.Prelude.{◌≡◌, refl, ◌∙◌, true, not, ◌&&◌, some, Text, text_eq, text_eq_refl, arith}
use co_scout.Prelude.Int.{ℤ, ◌-ℤ◌, ltb_ℤ}
use co_scout.Slave.Registry.{
  SlaveInfo, Registry, online, online_window, is_online, is_late, get_slave, register,
  update_heartbeat, check_and_cleanup,
}
use co_scout.Slave.Registry.Entries.{
  get_slave-store, get_slave-update_heartbeat, get_slave-check_and_cleanup, map_slave, seen, marked,
}

-- A slave whose registration is accepted is online from then on for less than 30 seconds, if
-- nothing else happens.
pub register_online :
    (r : Registry) (s : SlaveInfo) (now later : ℤ)
    → (register r s now).1 ≡ true
    → (t : SlaveInfo) × (get_slave (register r s now).0 s.id ≡ some t)
      × (is_online later t ≡ ltb_ℤ (later -ℤ now) online_window)
unfolding register is_online
register_online r s now later h = (
  seen now s,
  ground (arith, get_slave-store r s.id s.id (seen now s), text_eq_refl s.id),
  ground (arith, text_eq_refl online),
)

-- A registered slave whose heartbeat arrives is online from then on for less than 30 seconds, if
-- nothing else happens.
pub update_heartbeat_online :
    (r : Registry) (id : Text) (s : SlaveInfo) (now later : ℤ)
    → get_slave r id ≡ some s
    → (t : SlaveInfo) × (get_slave (update_heartbeat r id now) id ≡ some t)
      × (is_online later t ≡ ltb_ℤ (later -ℤ now) online_window)
unfolding is_online map_slave
update_heartbeat_online r id s now later e = (
  seen now s,
  get_slave-update_heartbeat r id id now ∙ rw (text_eq_refl id, e, map_slave) refl,
  ground (arith, text_eq_refl online),
)

-- After the cleanup, a registered slave is online at a later time exactly if it would have been
-- without it and was not late when it ran.
pub check_and_cleanup_online :
    (r : Registry) (timeout now later : ℤ) (id : Text) (s : SlaveInfo)
    → get_slave r id ≡ some s
    → (t : SlaveInfo) × (get_slave (check_and_cleanup r timeout now).0 id ≡ some t)
      × (is_online later t ≡ (is_online later s && not (is_late now timeout s)))
unfolding is_online map_slave text_eq
check_and_cleanup_online r timeout now later id s e = (
  marked timeout now s,
  get_slave-check_and_cleanup r timeout now id ∙ rw (e, map_slave) refl,
  ground arith,
)
