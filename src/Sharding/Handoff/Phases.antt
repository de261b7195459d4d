-- ===== src/Sharding/Handoff/Phases.antt =====
-- The phases of a hand-off: what each call may do to the shard it names, and to the others.
use atomr.Base.{
  ℕ, zero, suc, ◌-◌, ◌≤◌, ◌≡◌, ◌≢◌, refl, arith, Text, text_eq, text_beq_iff, leb, if◌then◌else◌,
  unwrap_or, ◌∙◌, sym, subst,
}
use atomr.Map.{get, get-insert}
use atomr.Sharding.Handoff.{
  HandoffState, idle, beginning, handing_off, stopped, started, Outcome, ok, invalid_transition,
  HandoffCoordinator, state, begin, ack_begin, entity_stopped, start_elsewhere, goes, with_entry,
}

-- The transitions of the protocol.
pub data Step : HandoffState → HandoffState → Type 0 where
  begins : (s : Text) → Step idle (beginning s)
  begins_again : (s t u : Text) → Step (started s t) (beginning u)
  acks : (s : Text) (n : ℕ) → Step (beginning s) (handing_off s n)
  one_stops : (s : Text) (n : ℕ) → Step (handing_off s (suc (suc n))) (handing_off s (suc n))
  last_stops : (s : Text) (n : ℕ) → n ≤ 1 → Step (handing_off s n) (stopped s)
  starts : (s t : Text) → Step (stopped s) (started s t)

-- A call of the coordinator, with the shard it names.
pub data Call : Type 0 where
  begin_call : Text → Text → Call
  ack_call : Text → ℕ → Call
  stopped_call : Text → Call
  start_call : Text → Text → Call

abbrev pub call : HandoffCoordinator → Call → HandoffCoordinator × Outcome
call c (begin_call shard source) = begin c shard source
call c (ack_call shard n) = ack_begin c shard n
call c (stopped_call shard) = entity_stopped c shard
call c (start_call shard target) = start_elsewhere c shard target

abbrev pub shard_of : Call → Text
shard_of (begin_call shard _) = shard
shard_of (ack_call shard _) = shard
shard_of (stopped_call shard) = shard
shard_of (start_call shard _) = shard

-- What a call makes of a shard: a transition of the protocol, or a refusal that changes nothing.
abbrev pub Moves : HandoffState → HandoffState → Outcome → Type 0
Moves before after ok = Step before after
Moves before after (invalid_transition shard) = after ≡ before

pub state-goes :
    (c : HandoffCoordinator) (shard : Text) (next : HandoffState)
    → state (goes c shard next).0 shard ≡ next
unfolding state
state-goes c shard next =
    ground (arith, get-insert c.states shard next shard, text_beq_iff shard shard)

state-with_entry :
    (c : HandoffCoordinator) (shard : Text) → state (with_entry c shard) shard ≡ state c shard
unfolding state
state-with_entry c shard = ground (
  arith,
  get-insert c.states shard (unwrap_or (get c.states shard) idle) shard,
  text_beq_iff shard shard,
)

-- The state that a call finds decides which of the two it is.
goes-Moves :
    (c d : HandoffCoordinator) (shard : Text) (st next : HandoffState)
    → Step st next
    → Moves st (state (goes d shard next).0 shard) (goes d shard next).1
goes-Moves c d shard st next h = subst (Step st) (sym (state-goes d shard next)) h

pub one_left :
    (s : Text) (n : ℕ)
    → (if leb (suc (suc n)) 1 then stopped s else handing_off s (suc (suc n) - 1))
      ≡ handing_off s (suc n)
one_left s n = ground arith

stops :
    (s : Text) (n : ℕ)
    → Step (handing_off s n) (if leb n 1 then stopped s else handing_off s (n - 1))
stops s zero = last_stops s zero (omega arith)
stops s (suc zero) = last_stops s (suc zero) (omega arith)
stops s (suc (suc n)) =
    subst (Step (handing_off s (suc (suc n)))) (sym (one_left s n)) (one_stops s n)

begin-Moves :
    (c : HandoffCoordinator) (shard source : Text) (st : HandoffState)
    → state c shard ≡ st
    → Moves st (state (begin c shard source).0 shard) (begin c shard source).1
unfolding begin
begin-Moves c shard source idle e =
    rw (e, begin) (goes-Moves c (with_entry c shard) shard idle (beginning source) (begins source))
begin-Moves c shard source (started s t) e =
    rw (e, begin)
      (goes-Moves c (with_entry c shard) shard (started s t) (beginning source)
        (begins_again s t source))
begin-Moves c shard source (beginning s) e = rw (e, begin) (state-with_entry c shard ∙ e)
begin-Moves c shard source (handing_off s n) e = rw (e, begin) (state-with_entry c shard ∙ e)
begin-Moves c shard source (stopped s) e = rw (e, begin) (state-with_entry c shard ∙ e)

ack_begin-Moves :
    (c : HandoffCoordinator) (shard : Text) (n : ℕ) (st : HandoffState)
    → state c shard ≡ st
    → Moves st (state (ack_begin c shard n).0 shard) (ack_begin c shard n).1
unfolding ack_begin
ack_begin-Moves c shard n (beginning s) e =
    rw (e, ack_begin) (goes-Moves c c shard (beginning s) (handing_off s n) (acks s n))
ack_begin-Moves c shard n idle e = rw (e, ack_begin) e
ack_begin-Moves c shard n (started s t) e = rw (e, ack_begin) e
ack_begin-Moves c shard n (handing_off s m) e = rw (e, ack_begin) e
ack_begin-Moves c shard n (stopped s) e = rw (e, ack_begin) e

entity_stopped-Moves :
    (c : HandoffCoordinator) (shard : Text) (st : HandoffState)
    → state c shard ≡ st
    → Moves st (state (entity_stopped c shard).0 shard) (entity_stopped c shard).1
unfolding entity_stopped
entity_stopped-Moves c shard (handing_off s m) e =
    rw (e, entity_stopped)
      (goes-Moves c c shard (handing_off s m) (if leb m 1 then stopped s else handing_off s (m - 1))
        (stops s m))
entity_stopped-Moves c shard idle e = rw (e, entity_stopped) e
entity_stopped-Moves c shard (started s t) e = rw (e, entity_stopped) e
entity_stopped-Moves c shard (beginning s) e = rw (e, entity_stopped) e
entity_stopped-Moves c shard (stopped s) e = rw (e, entity_stopped) e

start_elsewhere-Moves :
    (c : HandoffCoordinator) (shard target : Text) (st : HandoffState)
    → state c shard ≡ st
    → Moves st (state (start_elsewhere c shard target).0 shard) (start_elsewhere c shard target).1
unfolding start_elsewhere
start_elsewhere-Moves c shard target (stopped s) e =
    rw (e, start_elsewhere) (goes-Moves c c shard (stopped s) (started s target) (starts s target))
start_elsewhere-Moves c shard target idle e = rw (e, start_elsewhere) e
start_elsewhere-Moves c shard target (started s t) e = rw (e, start_elsewhere) e
start_elsewhere-Moves c shard target (beginning s) e = rw (e, start_elsewhere) e
start_elsewhere-Moves c shard target (handing_off s n) e = rw (e, start_elsewhere) e

-- Every call either moves the shard it names by a transition of the protocol, or is refused and
-- leaves the shard's state as it was.
pub call-Moves :
    (c : HandoffCoordinator) (k : Call)
    → Moves (state c (shard_of k)) (state (call c k).0 (shard_of k)) (call c k).1
call-Moves c (begin_call shard source) = begin-Moves c shard source (state c shard) refl
call-Moves c (ack_call shard n) = ack_begin-Moves c shard n (state c shard) refl
call-Moves c (stopped_call shard) = entity_stopped-Moves c shard (state c shard) refl
call-Moves c (start_call shard target) = start_elsewhere-Moves c shard target (state c shard) refl

state-goes_other :
    (c : HandoffCoordinator) (shard other : Text) (next : HandoffState)
    → shard ≢ other
    → state (goes c shard next).0 other ≡ state c other
unfolding state
state-goes_other c shard other next n =
    ground (arith, get-insert c.states shard next other, text_beq_iff shard other)

state-with_entry_other :
    (c : HandoffCoordinator) (shard other : Text)
    → shard ≢ other
    → state (with_entry c shard) other ≡ state c other
unfolding state
state-with_entry_other c shard other n =
    state-goes_other c shard other (unwrap_or (get c.states shard) idle) n

begin_other :
    (c : HandoffCoordinator) (shard source : Text) (other : Text) (st : HandoffState)
    → state c shard ≡ st
    → shard ≢ other
    → state (begin c shard source).0 other ≡ state c other
unfolding begin
begin_other c shard source other idle e n =
    rw (e, begin)
      (state-goes_other (with_entry c shard) shard other (beginning source) n
        ∙ state-with_entry_other c shard other n)
begin_other c shard source other (started s t) e n =
    rw (e, begin)
      (state-goes_other (with_entry c shard) shard other (beginning source) n
        ∙ state-with_entry_other c shard other n)
begin_other c shard source other (beginning s) e n =
    rw (e, begin) (state-with_entry_other c shard other n)
begin_other c shard source other (handing_off s m) e n =
    rw (e, begin) (state-with_entry_other c shard other n)
begin_other c shard source other (stopped s) e n =
    rw (e, begin) (state-with_entry_other c shard other n)

ack_begin_other :
    (c : HandoffCoordinator) (shard : Text) (k : ℕ) (other : Text) (st : HandoffState)
    → state c shard ≡ st
    → shard ≢ other
    → state (ack_begin c shard k).0 other ≡ state c other
unfolding ack_begin
ack_begin_other c shard k other idle e n = rw (e, ack_begin) refl
ack_begin_other c shard k other (started s t) e n = rw (e, ack_begin) refl
ack_begin_other c shard k other (beginning s) e n =
    rw (e, ack_begin) (state-goes_other c shard other (handing_off s k) n)
ack_begin_other c shard k other (handing_off s m) e n = rw (e, ack_begin) refl
ack_begin_other c shard k other (stopped s) e n = rw (e, ack_begin) refl

entity_stopped_other :
    (c : HandoffCoordinator) (shard : Text) (other : Text) (st : HandoffState)
    → state c shard ≡ st
    → shard ≢ other
    → state (entity_stopped c shard).0 other ≡ state c other
unfolding entity_stopped
entity_stopped_other c shard other idle e n = rw (e, entity_stopped) refl
entity_stopped_other c shard other (started s t) e n = rw (e, entity_stopped) refl
entity_stopped_other c shard other (beginning s) e n = rw (e, entity_stopped) refl
entity_stopped_other c shard other (handing_off s m) e n =
    rw (e, entity_stopped)
      (state-goes_other c shard other (if leb m 1 then stopped s else handing_off s (m - 1)) n)
entity_stopped_other c shard other (stopped s) e n = rw (e, entity_stopped) refl

start_elsewhere_other :
    (c : HandoffCoordinator) (shard target : Text) (other : Text) (st : HandoffState)
    → state c shard ≡ st
    → shard ≢ other
    → state (start_elsewhere c shard target).0 other ≡ state c other
unfolding start_elsewhere
start_elsewhere_other c shard target other idle e n = rw (e, start_elsewhere) refl
start_elsewhere_other c shard target other (started s t) e n = rw (e, start_elsewhere) refl
start_elsewhere_other c shard target other (beginning s) e n = rw (e, start_elsewhere) refl
start_elsewhere_other c shard target other (handing_off s m) e n = rw (e, start_elsewhere) refl
start_elsewhere_other c shard target other (stopped s) e n =
    rw (e, start_elsewhere) (state-goes_other c shard other (started s target) n)

-- A call leaves the state of every shard that it does not name as it was.
pub call_other :
    (c : HandoffCoordinator) (k : Call) (other : Text)
    → shard_of k ≢ other
    → state (call c k).0 other ≡ state c other
call_other c (begin_call shard source) other n =
    begin_other c shard source other (state c shard) refl n
call_other c (ack_call shard k) other n = ack_begin_other c shard k other (state c shard) refl n
call_other c (stopped_call shard) other n =
    entity_stopped_other c shard other (state c shard) refl n
call_other c (start_call shard target) other n =
    start_elsewhere_other c shard target other (state c shard) refl n
