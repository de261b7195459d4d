-- ===== src/Ddata/Register.antt =====
-- crates/atomr-distributed-data/src/register.rs and flag.rs.
pub mod Laws
use atomr.Base.{ℕ, Bool, true, false, ◌&&◌, ◌||◌, ltb, nat_beq, if◌then◌else◌, Text, text_ltb}

pub record LwwRegister (T : Type 0) : Type 0 where
  pub value : T
  pub timestamp : ℕ
  pub node : Text

module _ {T : Type 0} where
  unfoldable pub new : Text → T → ℕ → LwwRegister T
  new node value timestamp = record { value = value; timestamp = timestamp; node = node }

  unfoldable pub set : LwwRegister T → T → ℕ → Text → LwwRegister T
  set r value timestamp node =
      if ltb r.timestamp timestamp
      then record { value = value; timestamp = timestamp; node = node }
      else r

  unfoldable pub merge : LwwRegister T → LwwRegister T → LwwRegister T
  merge r other =
      if ltb r.timestamp other.timestamp
        || (nat_beq other.timestamp r.timestamp && text_ltb r.node other.node)
      then other
      else r

pub record Flag : Type 0 where
  pub enabled : Bool

unfoldable pub switch_on : Flag → Flag
switch_on f = record { enabled = true }

unfoldable pub merge_flag : Flag → Flag → Flag
merge_flag f other = record { enabled = f.enabled || other.enabled }
