-- ===== src/Tools/KillSwitch/Keys.antt =====
-- The keys of the epoch and of the flags, and what an update under one leaves of the others.
use atomr.Base.{
  ℕ, ◌≡◌, ◌≢◌, ◌⊎◌, sym, ap, inl, inr, true, false, some, [], ◌∷◌, ◌++◌, arith, Bool-cases, Text,
  text_beq, text_beq_iff, text_eq, codes, to_string,
}
use atomr.Ddata.Register
use atomr.Ddata.Register.{LwwRegister, Flag}
use atomr.Ddata.Replicator
use atomr.Ddata.Replicator.{Replicator, downcast_at}
use atomr.Ddata.Replicator.Store.{joined, get-update, store-update_other}
use atomr.Tools.KillSwitch.{
  stored_register, stored_flag, ClusterKillSwitch, epoch_key, flag_key, epoch_register, flag_at,
}

append_cancel : (a b c : Text) → a ++ b ≡ a ++ c → b ≡ c
append_cancel [] b c e = e
append_cancel (x ∷ a) b c e = append_cancel a b c (cc e)

keys_differ : (s : ClusterKillSwitch) (e : ℕ) → flag_key s e ≢ epoch_key s
unfolding flag_key epoch_key text_beq
keys_differ s e p =
    let rest : codes "::flag::" ++ to_string e ≡ codes "::epoch" =
      append_cancel s.base_key (codes "::flag::" ++ to_string e) (codes "::epoch") p in
    let same : false ≡ true =
      (text_beq_iff (codes "::flag::" ++ to_string e) (codes "::epoch")).1 rest in
    cc same

-- Another node's copy of a flag, or this node's, merged into the store.
unfoldable pub with_flag : ClusterKillSwitch → ℕ → Flag → ClusterKillSwitch
with_flag s e f = record s { replicator = Replicator.update s.replicator (flag_key s e) f }

-- Another node's copy of the register.
unfoldable pub with_register : ClusterKillSwitch → LwwRegister ℕ → ClusterKillSwitch
with_register s r = record s { replicator = Replicator.update s.replicator (epoch_key s) r }

pub epoch_register-with_flag :
    (s : ClusterKillSwitch) (e : ℕ) (f : Flag) → epoch_register (with_flag s e f) ≡ epoch_register s
unfolding epoch_register with_flag epoch_key flag_key Replicator.get
epoch_register-with_flag s e f =
    ap downcast_at
      (store-update_other s.replicator (flag_key s e) (epoch_key s) f (keys_differ s e))

pub flag_at-with_register :
    (s : ClusterKillSwitch) (r : LwwRegister ℕ) (e : ℕ)
    → flag_at (with_register s r) e ≡ flag_at s e
unfolding flag_at with_register epoch_key flag_key Replicator.get
flag_at-with_register s r e =
    ap downcast_at (
      store-update_other s.replicator (epoch_key s) (flag_key s e) r (λ p. keys_differ s e (sym p)))

pub epoch_register-with_register :
    (s : ClusterKillSwitch) (r : LwwRegister ℕ)
    → epoch_register (with_register s r) ≡ some (joined Register.merge (epoch_register s) r)
unfolding epoch_register with_register epoch_key
epoch_register-with_register s r = get-update s.replicator (epoch_key s) r

pub flag_at-with_flag :
    (s : ClusterKillSwitch) (e k : ℕ) (f : Flag)
    → (flag_at (with_flag s e f) k ≡ some (joined Register.merge_flag (flag_at s k) f))
      ⊎ (flag_at (with_flag s e f) k ≡ flag_at s k)
unfolding flag_at with_flag flag_key
flag_at-with_flag s e k f = elim (Bool-cases (text_beq (flag_key s e) (flag_key s k))) [
  | inl t ↦
      let same : flag_key s e ≡ flag_key s k = (text_beq_iff (flag_key s e) (flag_key s k)).0 t in
      inl (rw same (get-update s.replicator (flag_key s k) f))
  | inr t ↦
      let differ : flag_key s e ≢ flag_key s k =
        λ p. ground (arith, text_beq_iff (flag_key s e) (flag_key s k)) in
      inr (
        unfold Replicator.get in
        ap downcast_at (store-update_other s.replicator (flag_key s e) (flag_key s k) f differ))
]
