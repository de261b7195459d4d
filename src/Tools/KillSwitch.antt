-- ===== src/Tools/KillSwitch.antt =====
-- crates/atomr-cluster-tools/src/kill_switch.rs: the halt latch of one node over its replicator. Every
-- operation under its locks is one step.
pub mod Keys
pub mod Reset
use atomr.Base.{
  ℕ, suc, ◌+◌, ◌%◌, ◌≡◌, refl, Bool, true, false, not, ◌&&◌, ◌||◌, Option, none, some, List, [],
  ◌∷◌, ◌++◌, length, ltb, nat_beq, nat_eq, if◌then◌else◌, Text, text_eq, text_beq, codes, to_string,
  trim, u64_mod, unwrap_or,
}
use atomr.Map
use atomr.Map.{Map}
use atomr.Ddata.Register
use atomr.Ddata.Register.{LwwRegister, Flag}
use atomr.Ddata.Replicator
use atomr.Ddata.Replicator.{Stored, Replicator}

pub data HaltReason : Type 0 where
  manual : Text → HaltReason
  quorum_lost : HaltReason
  risk_breach : Text → HaltReason

pub record ResetAuthorization : Type 0 where
  pub approver_a : Text
  pub approver_b : Text

pub data ResetError : Type 0 where
  missing_approver : ResetError
  duplicate_approver : ResetError

-- A party by its id, with the receiver of its ack while nobody has taken it.
pub record Guarded : Type 0 where
  pub party : ℕ
  pub ack_rx : Option ℕ

-- The two types that the switch stores.
pub data Entry : Type 0 where
  register : LwwRegister ℕ → Entry
  flag : Flag → Entry

unfoldable pub as_register : Entry → Option (LwwRegister ℕ)
as_register (register r) = some r
as_register (flag f) = none

unfoldable pub as_flag : Entry → Option Flag
as_flag (register r) = none
as_flag (flag f) = some f

pub as_register-register : (r : LwwRegister ℕ) → as_register (register r) ≡ some r
unfolding as_register
as_register-register r = refl

pub as_flag-flag : (f : Flag) → as_flag (flag f) ≡ some f
unfolding as_flag
as_flag-flag f = refl

instance abbrev pub stored_register : Stored Entry (LwwRegister ℕ)
stored_register = record {
  boxed = register;
  downcast = as_register;
  downcast_boxed = as_register-register;
  merge = Register.merge;
}

instance abbrev pub stored_flag : Stored Entry Flag
stored_flag = record {
  boxed = flag;
  downcast = as_flag;
  downcast_boxed = as_flag-flag;
  merge = Register.merge_flag;
}

-- `transport` is its `peers()`; what is sent is returned.
pub record ClusterKillSwitch : Type 0 where
  pub replicator : Replicator Entry
  pub base_key : Text
  pub node : Text
  pub seq : ℕ
  pub last_reason : Option HaltReason
  pub guarded : List Guarded
  pub transport : Option (List Text)
  pub remote_acks : Map ℕ (Map Text (Unit {0}))

unfoldable pub epoch_key : ClusterKillSwitch → Text
epoch_key s = s.base_key ++ codes "::epoch"

unfoldable pub flag_key : ClusterKillSwitch → ℕ → Text
flag_key s epoch = s.base_key ++ (codes "::flag::" ++ to_string epoch)

-- The timestamp that `next_ts` returns, and the switch after.
unfoldable pub next_ts : ClusterKillSwitch → ℕ
next_ts s = (s.seq + 1) % u64_mod

unfoldable pub bump : ClusterKillSwitch → ClusterKillSwitch
bump s = record s { seq = (s.seq + 1) % u64_mod }

unfoldable pub epoch_register : ClusterKillSwitch → Option (LwwRegister ℕ)
epoch_register s = Replicator.get s.replicator (epoch_key s)

unfoldable pub value_of : Option (LwwRegister ℕ) → ℕ
value_of none = 0
value_of (some r) = r.value

unfoldable pub epoch : ClusterKillSwitch → ℕ
epoch s = value_of (epoch_register s)

unfoldable pub put_register : ClusterKillSwitch → ℕ → ClusterKillSwitch
put_register s value = record (bump s) {
  replicator = Replicator.update s.replicator (epoch_key s) (Register.new s.node value (next_ts s));
}

unfoldable pub started : Option (LwwRegister ℕ) → ClusterKillSwitch → ClusterKillSwitch
started none s = put_register s 0
started (some r) s = s

unfoldable pub build :
    Replicator Entry → (base_key node : Text) → (transport : Option (List Text)) → ClusterKillSwitch
build replicator base_key node transport =
    let this : ClusterKillSwitch = record {
      replicator = replicator;
      base_key = base_key;
      node = node;
      seq = 0;
      last_reason = none;
      guarded = [];
      transport = transport;
      remote_acks = Map.empty;
    } in
    started (epoch_register this) this

unfoldable pub flag_at : ClusterKillSwitch → ℕ → Option Flag
flag_at s epoch = Replicator.get s.replicator (flag_key s epoch)

unfoldable pub engage_epoch : ClusterKillSwitch → ℕ → HaltReason → ClusterKillSwitch
engage_epoch s epoch reason =
    let on = Register.switch_on (unwrap_or (flag_at s epoch) record { enabled = false }) in
    record s {
      replicator = Replicator.update s.replicator (flag_key s epoch) on;
      last_reason = some reason;
    }

-- The token, and the switch after.
unfoldable pub engage : ClusterKillSwitch → HaltReason → ℕ × ClusterKillSwitch
engage s reason = let t = engage_epoch s (epoch s) reason in (next_ts t, bump t)

unfoldable pub enabled_of : Option Flag → Bool
enabled_of none = false
enabled_of (some f) = f.enabled

unfoldable pub is_engaged : ClusterKillSwitch → Bool
is_engaged s = enabled_of (flag_at s (epoch s))

pub data ResetResult : Type 0 where
  ok : ℕ → ResetResult
  err : ResetError → ResetResult

abbrev pub is_blank : Text → Bool
is_blank s = text_beq (trim s) []

unfoldable pub reset : ClusterKillSwitch → ResetAuthorization → ResetResult × ClusterKillSwitch
reset s authz =
    if is_blank authz.approver_a || is_blank authz.approver_b
    then (err missing_approver, s)
    else if text_beq authz.approver_a authz.approver_b
    then (err duplicate_approver, s)
    else (let new_epoch = (epoch s + 1) % u64_mod in
        (ok new_epoch, record (put_register s new_epoch) { last_reason = none }))

-- `KillSwitchQuorumObserver`
unfoldable pub on_quorum_lost : ClusterKillSwitch → ClusterKillSwitch
on_quorum_lost s = (engage s quorum_lost).1

unfoldable pub on_quorum_regained : ClusterKillSwitch → ClusterKillSwitch
on_quorum_regained s = s
