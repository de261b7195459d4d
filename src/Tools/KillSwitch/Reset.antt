-- ===== src/Tools/KillSwitch/Reset.antt =====
-- What an authorised reset does, and what it fails to do.
use atomr.Base.{
  ℕ, ◌+◌, ◌%◌, ◌<◌, ◌≡◌, ◌≢◌, refl, ap, ◌∙◌, inl, inr, ◌⊎◌, none, some, [], arith, Bool-cases,
  text_beq, text_beq_iff, trim, u64_mod,
}
use atomr.Ddata.Register
use atomr.Ddata.Register.{LwwRegister, Flag}
use atomr.Ddata.Replicator.Store.{joined}
use atomr.Tools.KillSwitch.{
  ResetAuthorization, ResetError, missing_approver, duplicate_approver, ok, err, ClusterKillSwitch,
  epoch_key, flag_key, epoch_register, value_of, epoch, next_ts, bump, put_register, flag_at,
  enabled_of, is_engaged, is_blank, reset,
}
use atomr.Tools.KillSwitch.Keys.{with_register, epoch_register-with_register, flag_at-with_register}

-- Two people sign: neither name is blank, and they are not the same bytes.
pub record IsAuthorised (authz : ResetAuthorization) : Type 0 where
  pub named_a : trim authz.approver_a ≢ []
  pub named_b : trim authz.approver_b ≢ []
  pub distinct : authz.approver_a ≢ authz.approver_b

-- The switch that an authorised reset leaves.
abbrev pub advanced : ClusterKillSwitch → ClusterKillSwitch
advanced s = record (put_register s ((epoch s + 1) % u64_mod)) { last_reason = none }

pub reset_authorised :
    (s : ClusterKillSwitch) (authz : ResetAuthorization)
    → IsAuthorised authz
    → reset s authz ≡ (ok ((epoch s + 1) % u64_mod), advanced s)
unfolding reset
reset_authorised s authz h = ground (
  arith,
  h.named_a,
  h.named_b,
  h.distinct,
  text_beq_iff (trim authz.approver_a) [],
  text_beq_iff (trim authz.approver_b) [],
  text_beq_iff authz.approver_a authz.approver_b,
)

-- Without two people nothing happens.
pub reset_refused :
    (s : ClusterKillSwitch) (authz : ResetAuthorization)
    → IsAuthorised authz ⊎ ((e : ResetError) × (reset s authz ≡ (err e, s)))
unfolding reset
reset_refused s authz = elim (Bool-cases (is_blank authz.approver_a)) [
  | inl a ↦ inr (missing_approver, rw a refl)
  | inr a ↦ elim (Bool-cases (is_blank authz.approver_b)) [
    | inl b ↦ inr (missing_approver, rw (a, b) refl)
    | inr b ↦ elim (Bool-cases (text_beq authz.approver_a authz.approver_b)) [
      | inl c ↦ inr (duplicate_approver, rw (a, b, c) refl)
      | inr c ↦ inl record {
        named_a = λ e. ground (arith, text_beq_iff (trim authz.approver_a) []);
        named_b = λ e. ground (arith, text_beq_iff (trim authz.approver_b) []);
        distinct = λ e. ground (arith, text_beq_iff authz.approver_a authz.approver_b);
      }
    ]
  ]
]

-- `put_register` is an update of the register and a step of the clock.
register_after :
    (s : ClusterKillSwitch) (v : ℕ)
    → epoch_register (put_register s v)
      ≡ some (joined Register.merge (epoch_register s) (Register.new s.node v (next_ts s)))
unfolding put_register bump epoch_register epoch_key with_register
register_after s v = epoch_register-with_register s (Register.new s.node v (next_ts s))

flags_after : (s : ClusterKillSwitch) (v e : ℕ) → flag_at (put_register s v) e ≡ flag_at s e
unfolding put_register bump flag_at flag_key epoch_key with_register
flags_after s v e = flag_at-with_register s (Register.new s.node v (next_ts s)) e

module _ (s : ClusterKillSwitch) (authz : ResetAuthorization) (r : LwwRegister ℕ)
    (signed : IsAuthorised authz) (current : epoch_register s ≡ some r)
    (small : s.seq + 1 < u64_mod) (epochs : epoch s + 1 < u64_mod) where
  next_epoch : (epoch s + 1) % u64_mod ≡ epoch s + 1
  next_epoch = omega arith

  signed_reset : reset s authz ≡ (ok (epoch s + 1), advanced s)
  signed_reset = reset_authorised s authz signed ∙ ap (λ v. (ok v, advanced s)) next_epoch

  register_now :
      epoch_register (advanced s)
      ≡ some (Register.merge r (Register.new s.node (epoch s + 1) (s.seq + 1)))
  unfolding next_ts
  register_now =
      let clock : (s.seq + 1) % u64_mod ≡ s.seq + 1 = omega arith in
      let stored : epoch_register (advanced s)
          ≡ some (
              joined Register.merge (epoch_register s)
                (Register.new s.node ((epoch s + 1) % u64_mod) (next_ts s))) =
        unfold epoch_register epoch_key in register_after s ((epoch s + 1) % u64_mod) in
      stored
      ∙ ap
          (λ o.
            some
              (joined Register.merge o (Register.new s.node ((epoch s + 1) % u64_mod) (next_ts s))))
          current
      ∙ ap (λ t. some (Register.merge r (Register.new s.node ((epoch s + 1) % u64_mod) t))) clock
      ∙ ap (λ v. some (Register.merge r (Register.new s.node v (s.seq + 1)))) next_epoch

  flags_now : (e : ℕ) → flag_at (advanced s) e ≡ flag_at s e
  flags_now e = unfold flag_at flag_key in flags_after s ((epoch s + 1) % u64_mod) e

  epoch_now :
      (v : ℕ)
      → (Register.merge r (Register.new s.node (epoch s + 1) (s.seq + 1))).value ≡ v
      → epoch (advanced s) ≡ v
  epoch_now v h =
      let stored : epoch (advanced s)
          ≡ value_of (some (Register.merge r (Register.new s.node (epoch s + 1) (s.seq + 1)))) =
        unfold epoch in ap value_of register_now in
      stored ∙ (unfold value_of in h)

  engaged_now :
      (v : ℕ) → epoch (advanced s) ≡ v → is_engaged (advanced s) ≡ enabled_of (flag_at s v)
  unfolding is_engaged
  engaged_now v h = ap (λ e. enabled_of (flag_at (advanced s) e)) h ∙ ap enabled_of (flags_now v)

  -- A reset that two people sign, by a node whose clock is past the register's timestamp, moves to the
  -- next epoch and clears the reason. The switch is engaged then exactly if the flag of that epoch is on;
  -- no flag changes. The clock and the epoch are short of their greatest values.
  pub reset_lem :
      r.timestamp < s.seq + 1
      → (reset s authz ≡ (ok (epoch s + 1), advanced s))
        × (epoch (advanced s) ≡ epoch s + 1)
        × (is_engaged (advanced s) ≡ enabled_of (flag_at s (epoch s + 1)))
        × ((e : ℕ) → flag_at (advanced s) e ≡ flag_at s e)
  unfolding Register.merge Register.new
  reset_lem h =
      let now = epoch_now (epoch s + 1) (ground arith) in
      (signed_reset, now, engaged_now (epoch s + 1) now, flags_now)

  -- A reset that two people sign, by a node whose clock is behind the register's timestamp, returns the
  -- next epoch and clears the reason, but the epoch stays, and so does whether the switch is engaged. The
  -- clock and the epoch are short of their greatest values.
  pub reset_lost :
      s.seq + 1 < r.timestamp
      → (reset s authz ≡ (ok (epoch s + 1), advanced s))
        × (epoch (advanced s) ≡ epoch s)
        × (is_engaged (advanced s) ≡ is_engaged s)
  unfolding Register.merge Register.new
  reset_lost h =
      let here : epoch s ≡ r.value = unfold epoch value_of in ap value_of current in
      let now = epoch_now (epoch s) (ground arith) in
      (signed_reset, now, engaged_now (epoch s) now ∙ (unfold is_engaged in refl))
