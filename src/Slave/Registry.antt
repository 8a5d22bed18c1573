-- ===== src/Slave/Registry.antt =====
-- The slave registry of internal/master/types.go. Each method holds the registry's lock, so it is
-- one step; its time is an argument, in nanoseconds. The map is a list of entries.
pub mod Entries
pub mod Stable
pub mod Liveness
pub mod Codes
mod Tests
use co_scout.Prelude.{
  ℕ, suc, Bool, true, false, not, ◌&&◌, ◌||◌, List, [], ◌∷◌, ◌++◌, Option, none, some, ◌==◌,
  if◌then◌else◌, Text, codes, text_eq, length,
}
use co_scout.Prelude.Int.{ℤ, pos, ◌-ℤ◌, ltb_ℤ}

pub record SlaveInfo : Type 0 where
  pub id : Text
  pub ip : Text
  pub port : ℕ
  pub last_seen : ℤ
  pub status : Text
  pub version : Text
  pub capabilities : List Text
  pub file_prefix : Text

abbrev pub online : Text
online = codes "online"

abbrev pub timed_out : Text
timed_out = codes "timeout"

-- 30 * time.Second
abbrev pub online_window : ℤ
online_window = pos 30_000_000_000

unfoldable pub is_online : ℤ → SlaveInfo → Bool
is_online now s = text_eq s.status online && ltb_ℤ (now -ℤ s.last_seen) online_window

-- The entries of the map, each under its slave's id.
abbrev pub Registry : Type 0
Registry = List (Text × SlaveInfo)

unfoldable pub new_slave_registry : Registry
new_slave_registry = []

unfoldable pub get_slave : Registry → Text → Option SlaveInfo
get_slave [] id = none
get_slave ((k, s) ∷ r) id = if text_eq k id then some s else get_slave r id

unfoldable pub store : Registry → Text → SlaveInfo → Registry
store [] id s = (id, s) ∷ []
store ((k, t) ∷ r) id s = if text_eq k id then (k, s) ∷ r else (k, t) ∷ store r id s

unfoldable pub unregister : Registry → Text → Registry
unregister [] id = []
unregister ((k, s) ∷ r) id = if text_eq k id then unregister r id else (k, s) ∷ unregister r id

-- Whether a registered slave stands at another address: ErrSlaveIDConflict.
conflicts : Option SlaveInfo → SlaveInfo → Bool
conflicts none s = false
conflicts (some existing) s = not (text_eq existing.ip s.ip) || not (existing.port == s.port)

-- The registry after the call, and whether there was no error.
unfoldable pub register : Registry → SlaveInfo → ℤ → Registry × Bool
unfolding conflicts
register r s now =
    if conflicts (get_slave r s.id) s
    then (r, false)
    else (store r s.id (record s { last_seen = now; status = online }), true)

unfoldable pub get_online_slaves : ℤ → Registry → List SlaveInfo
unfolding is_online
get_online_slaves now [] = []
get_online_slaves now ((k, s) ∷ r) =
    let rest = get_online_slaves now r in if is_online now s then s ∷ rest else rest

unfoldable pub get_slave_count : Registry → ℕ
get_slave_count r = length r

unfoldable pub update_heartbeat : Registry → Text → ℤ → Registry
update_heartbeat [] id now = []
update_heartbeat ((k, s) ∷ r) id now =
    if text_eq k id
    then (k, record s { last_seen = now; status = online }) ∷ r
    else (k, s) ∷ update_heartbeat r id now

unfoldable pub is_late : ℤ → ℤ → SlaveInfo → Bool
is_late now timeout s = ltb_ℤ timeout (now -ℤ s.last_seen)

-- The registry with the late slaves marked, and their ids.
unfoldable pub check_and_cleanup : Registry → ℤ → ℤ → Registry × List Text
unfolding is_late
check_and_cleanup [] timeout now = ([], [])
check_and_cleanup ((k, s) ∷ r) timeout now =
    let (r', ids) = check_and_cleanup r timeout now in
    if is_late now timeout s
    then ((k, record s { status = timed_out }) ∷ r', k ∷ ids)
    else ((k, s) ∷ r', ids)

pub data Operation : Type 0 where
  registers : SlaveInfo → Operation
  unregisters beats : Text → Operation
  cleans : ℤ → Operation

-- An operation at a time.
unfoldable pub step : Registry → Operation × ℤ → Registry
step r (registers s, now) = (register r s now).0
step r (unregisters id, now) = unregister r id
step r (beats id, now) = update_heartbeat r id now
step r (cleans timeout, now) = (check_and_cleanup r timeout now).0

unfoldable pub run : Registry → List (Operation × ℤ) → Registry
run r [] = r
run r (op ∷ ops) = run (step r op) ops
