-- ===== src/Slave/Registry/Stable.antt =====
-- A registered slave keeps its address in internal/master/types.go.
use co_scout.Prelude.{
  ◌≡◌, ◌≢◌, refl, ◌∙◌, false, List, [], ◌∷◌, some, Text, text_eq, text_eq_iff, All, arith,
  Bool-cases, inl, inr,
}
use co_scout.Prelude.Int.{ℤ}
use co_scout.Slave.Registry.{
  SlaveInfo, Registry, get_slave, register, Operation, registers, unregisters, beats, cleans, step,
  run, conflicts,
}
use co_scout.Slave.Registry.Entries.{
  get_slave-store, get_slave-unregister, get_slave-update_heartbeat, get_slave-check_and_cleanup,
  map_slave, seen, marked,
}

-- The operation does not unregister `id`.
abbrev pub Spares : Text → Operation × ℤ → Type 0
Spares id (unregisters k, now) = k ≢ id
Spares id (registers s, now) = Unit {0}
Spares id (beats k, now) = Unit {0}
Spares id (cleans timeout, now) = Unit {0}

-- `id` is registered at the address of `s`.
abbrev pub AtAddress : Registry → Text → SlaveInfo → Type 0
AtAddress r id s = (t : SlaveInfo) × (get_slave r id ≡ some t) × (t.ip ≡ s.ip) × (t.port ≡ s.port)

same_ip : (t s : SlaveInfo) → conflicts (some t) s ≡ false → s.ip ≡ t.ip
unfolding conflicts
same_ip t s h = ground (arith, text_eq_iff t.ip s.ip)

same_port : (t s : SlaveInfo) → conflicts (some t) s ≡ false → s.port ≡ t.port
unfolding conflicts
same_port t s h = ground arith

register-AtAddress :
    (r : Registry) (id : Text) (s s' : SlaveInfo) (now : ℤ)
    → AtAddress r id s
    → AtAddress (register r s' now).0 id s
unfolding register
register-AtAddress r id s s' now (t, e, a, p) =
    elim (Bool-cases (conflicts (get_slave r s'.id) s')) [
      | inl c ↦ (t, ground arith, a, p)
      | inr c ↦ elim (Bool-cases (text_eq s'.id id)) [
        | inl same ↦
            let same_id = (text_eq_iff s'.id id).0 same in
            let fits : conflicts (some t) s' ≡ false = rw (same_id, e) at c in
            (
              seen now s',
              ground (arith, get_slave-store r s'.id id (seen now s')),
              same_ip t s' fits ∙ a,
              same_port t s' fits ∙ p,
            )
        | inr other ↦ (t, ground (arith, get_slave-store r s'.id id (seen now s')), a, p)
      ]
    ]

step-AtAddress :
    (r : Registry) (id : Text) (s : SlaveInfo) (op : Operation × ℤ)
    → Spares id op
    → AtAddress r id s
    → AtAddress (step r op) id s
unfolding step map_slave
step-AtAddress r id s (registers s', now) h a = register-AtAddress r id s s' now a
step-AtAddress r id s (unregisters k, now) h (t, e, a, p) =
    (t, ground (arith, get_slave-unregister r k id, text_eq_iff k id), a, p)
step-AtAddress r id s (beats k, now) h (t, e, a, p) = elim (Bool-cases (text_eq k id)) [
  | inl same ↦
      (seen now t, get_slave-update_heartbeat r k id now ∙ rw (same, e, map_slave) refl, a, p)
  | inr other ↦ (t, get_slave-update_heartbeat r k id now ∙ rw other e, a, p)
]
step-AtAddress r id s (cleans timeout, now) h (t, e, a, p) = (
  marked timeout now t,
  get_slave-check_and_cleanup r timeout now id ∙ rw (e, map_slave) refl,
  ground arith,
  ground arith,
)

-- Over any history that does not unregister a slave, its id keeps the address at which it is
-- registered: no later registration under the id from another address takes effect.
pub run-AtAddress :
    (r : Registry) (id : Text) (s : SlaveInfo) (ops : List (Operation × ℤ))
    → All (Spares id) ops
    → AtAddress r id s
    → AtAddress (run r ops) id s
unfolding run
run-AtAddress r id s [] h a = a
run-AtAddress r id s (op ∷ ops) h a =
    run-AtAddress (step r op) id s ops h.1 (step-AtAddress r id s op h.0 a)
