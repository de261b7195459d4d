-- ===== src/Tools/Latch.antt =====
-- The latch under the switch's calls, PDUs and merges of the replicator. A deletion of its keys from the
-- replicator is not among them.
use atomr.Base.{
  ℕ, ◌≡◌, ◌≢◌, refl, inl, inr, Bool, true, false, Option, none, some, List, [], ◌∷◌, arith,
  Bool-cases, nat_beq, nat_beq_iff, Text, unwrap_or,
}
use atomr.Ddata.Register
use atomr.Ddata.Register.{LwwRegister, Flag}
use atomr.Ddata.Replicator.Store.{joined}
use atomr.Tools.KillSwitch.{
  HaltReason, ResetAuthorization, ClusterKillSwitch, epoch_register, value_of, epoch, bump,
  epoch_key, flag_key, flag_at, engage_epoch, engage, enabled_of, is_engaged, reset, on_quorum_lost,
  on_quorum_regained,
}
use atomr.Tools.KillSwitch.Keys.{
  with_flag, with_register, epoch_register-with_flag, flag_at-with_flag,
  epoch_register-with_register, flag_at-with_register,
}
use atomr.Tools.KillSwitch.Reset.{IsAuthorised, reset_refused}
use atomr.Tools.Quiescence.{
  HaltPdu, halt, ack, register_guarded, collect_local, start_quiescence, cleared, waited, apply_pdu,
}

-- What reaches the switch of a node: its own calls, PDUs, and what the replicator merges.
pub data Op : Type 0 where
  engages : HaltReason → Op
  resets : ResetAuthorization → Op
  registers : (party rx : ℕ) → Op
  quiesces : (in_time : ℕ → Bool) → Op
  receives : (in_time : ℕ → Bool) → HaltPdu → Op
  loses_quorum : Op
  regains_quorum : Op
  merges_flag : ℕ → Flag → Op
  merges_register : LwwRegister ℕ → Op

unfoldable pub step : ClusterKillSwitch → Op → ClusterKillSwitch
step s (engages reason) = (engage s reason).1
step s (resets authz) = (reset s authz).1
step s (registers party rx) = register_guarded s party rx
step s (quiesces in_time) = (start_quiescence in_time s).2
step s (receives in_time pdu) = (apply_pdu in_time s pdu).1
step s loses_quorum = on_quorum_lost s
step s regains_quorum = on_quorum_regained s
step s (merges_flag e f) = with_flag s e f
step s (merges_register r) = with_register s r

-- What may release the latch: a reset that two people sign, or a register from elsewhere with another
-- epoch.
abbrev pub MayRelease : ClusterKillSwitch → Op → Type 0
MayRelease s (resets authz) = IsAuthorised authz
MayRelease s (merges_register r) = r.value ≢ epoch s
MayRelease s op = ⊥

kept_on :
    (old : Option Flag) (f : Flag)
    → enabled_of old ≡ true
    → enabled_of (some (joined Register.merge_flag old f)) ≡ true
unfolding enabled_of Register.merge_flag
kept_on none f h = absurd (cc h)
kept_on (some g) f h = ground arith

with_flag-engaged :
    (s : ClusterKillSwitch) (e : ℕ) (f : Flag)
    → is_engaged s ≡ true
    → is_engaged (with_flag s e f) ≡ true
unfolding is_engaged epoch
with_flag-engaged s e f h =
    rw (epoch_register-with_flag s e f)
      (elim (flag_at-with_flag s e (value_of (epoch_register s)) f) [
        | inl t ↦ rw t (kept_on (flag_at s (value_of (epoch_register s))) f h)
        | inr t ↦ rw t h
      ])

engage_epoch-engaged :
    (s : ClusterKillSwitch) (e : ℕ) (reason : HaltReason)
    → is_engaged s ≡ true
    → is_engaged (engage_epoch s e reason) ≡ true
unfolding is_engaged epoch epoch_register epoch_key flag_at flag_key engage_epoch with_flag
engage_epoch-engaged s e reason h =
    with_flag-engaged s e (Register.switch_on (unwrap_or (flag_at s e) record { enabled = false }))
      h

reset-engaged :
    (s : ClusterKillSwitch) (authz : ResetAuthorization)
    → is_engaged s ≡ true
    → ¬ IsAuthorised authz
    → is_engaged (reset s authz).1 ≡ true
reset-engaged s authz h n = elim (reset_refused s authz) [
  | inl a ↦ absurd (n a)
  | inr (e, same) ↦ rw same h
]

merged_value :
    (old : Option (LwwRegister ℕ)) (r : LwwRegister ℕ) (e : ℕ)
    → value_of old ≡ e
    → r.value ≡ e
    → (joined Register.merge old r).value ≡ e
unfolding value_of Register.merge
merged_value none r e h k = k
merged_value (some o) r e h k = ground arith

with_register-engaged :
    (s : ClusterKillSwitch) (r : LwwRegister ℕ)
    → is_engaged s ≡ true
    → r.value ≡ epoch s
    → is_engaged (with_register s r) ≡ true
unfolding is_engaged epoch
with_register-engaged s r h e =
    let same : value_of (epoch_register (with_register s r)) ≡ value_of (epoch_register s) =
      rw (epoch_register-with_register s r) (
        unfold value_of in
        merged_value (epoch_register s) r (value_of (epoch_register s)) refl e) in
    rw (same, flag_at-with_register s r (value_of (epoch_register s))) h

-- An engaged switch stays engaged under its own calls, PDUs and what the replicator merges into its
-- keys, but for a reset that two people sign and a register merged from elsewhere that holds another
-- epoch.
pub step-IsLatched :
    (s : ClusterKillSwitch) (op : Op)
    → is_engaged s ≡ true
    → ¬ MayRelease s op
    → is_engaged (step s op) ≡ true
unfolding step start_quiescence
step-IsLatched s (engages reason) h n =
    unfold is_engaged epoch epoch_register epoch_key flag_at flag_key engage bump in
    engage_epoch-engaged s (epoch s) reason h
step-IsLatched s (resets authz) h n = reset-engaged s authz h n
step-IsLatched s (registers party rx) h n =
    unfold is_engaged epoch epoch_register epoch_key flag_at flag_key register_guarded in h
step-IsLatched s (quiesces in_time) h n = quiet (waited s.transport)
  where
    quiet : (peers : List Text) → is_engaged (cleared peers (collect_local in_time s).1) ≡ true
    quiet [] =
        unfold is_engaged epoch epoch_register epoch_key flag_at flag_key cleared collect_local in h
    quiet (p ∷ l) =
        unfold is_engaged epoch epoch_register epoch_key flag_at flag_key cleared collect_local in h
step-IsLatched s (receives in_time (halt sender e reason)) h n =
    unfold is_engaged epoch epoch_register epoch_key flag_at flag_key apply_pdu collect_local in
    engage_epoch-engaged s e reason h
step-IsLatched s (receives in_time (ack sender e)) h n =
    unfold is_engaged epoch epoch_register epoch_key flag_at flag_key apply_pdu in h
step-IsLatched s loses_quorum h n =
    unfold is_engaged epoch epoch_register epoch_key flag_at flag_key on_quorum_lost engage bump in
    engage_epoch-engaged s (epoch s) HaltReason.quorum_lost h
step-IsLatched s regains_quorum h n = unfold on_quorum_regained in h
step-IsLatched s (merges_flag e f) h n = with_flag-engaged s e f h
step-IsLatched s (merges_register r) h n =
    with_register-engaged s r h (elim (Bool-cases (nat_beq r.value (epoch s))) [
      | inl e ↦ (nat_beq_iff r.value (epoch s)).0 e
      | inr e ↦ absurd (n (λ p. ground (arith, nat_beq_iff r.value (epoch s))))
    ])
