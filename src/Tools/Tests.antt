-- ===== src/Tools/Tests.antt =====
-- Runs of the kill switch, and an instance of each theorem.
use atomr.Base.{
  ℕ, ◌+◌, ◌<◌, ◌≡◌, ◌↔◌, refl, Bool, true, false, some, [], ◌∷◌, arith, All, nat_beq, text_eq,
  nat_eq, codes, text_beq, text_beq_iff, decimal, trim, trim_start, space_at, reverse, u64_mod,
}
use atomr.Map
use atomr.Ddata.Replicator
use atomr.Ddata.Replicator.{Replicator}
use atomr.Tools.KillSwitch.{
  quorum_lost, ResetAuthorization, ok, register, flag, as_register, as_flag, ClusterKillSwitch,
  epoch_key, flag_key, epoch_register, value_of, epoch, flag_at, enabled_of, is_engaged, reset,
}
use atomr.Tools.KillSwitch.Reset.{IsAuthorised, advanced, reset_lem, reset_lost}
use atomr.Tools.Quiescence.{ack, receivers, start_quiescence, report, waited}
use atomr.Tools.Quiescence.Acks.{absorb, Came}
use atomr.Tools.Quiescence.Report.{report-timed_out}
use atomr.Tools.Latch.{merges_flag, step, step-IsLatched}

abbrev fresh : ClusterKillSwitch
fresh = record {
  replicator = record {
    store =
        Map.insert
          (Map.insert Map.empty (codes "k::epoch")
            (register record { value = 0; timestamp = 1; node = codes "a" }))
          (codes "k::flag::0") (flag record { enabled = true });
    subscribers = Map.empty;
    next_sub_id = 0;
  };
  base_key = codes "k";
  node = codes "a";
  seq = 1;
  last_reason = some quorum_lost;
  guarded = record { party = 1; ack_rx = some 7 } ∷ [];
  transport = some (codes "b" ∷ []);
  remote_acks = Map.empty;
}

fresh-is_engaged : is_engaged fresh ≡ true
unfolding is_engaged epoch epoch_register epoch_key flag_at flag_key value_of enabled_of as_register
    as_flag Replicator.get Replicator.downcast_at Map.get Map.insert Map.empty Map.lookup Map.set
    text_beq decimal
fresh-is_engaged = refl

step-IsLatched_example : is_engaged (step fresh (merges_flag 0 record { enabled = false })) ≡ true
step-IsLatched_example =
    step-IsLatched fresh (merges_flag 0 record { enabled = false }) fresh-is_engaged (λ h. h)

abbrev two_people : ResetAuthorization
two_people = record { approver_a = codes "amy"; approver_b = codes "bob" }

two_people-IsAuthorised : IsAuthorised two_people
unfolding text_beq trim trim_start space_at reverse
two_people-IsAuthorised = record {
  named_a = λ e. let same : false ≡ true = (text_beq_iff (trim (codes "amy")) []).1 e in cc same;
  named_b = λ e. let same : false ≡ true = (text_beq_iff (trim (codes "bob")) []).1 e in cc same;
  distinct =
      λ e. let same : false ≡ true = (text_beq_iff (codes "amy") (codes "bob")).1 e in cc same;
}

fresh_register : epoch_register fresh ≡ some (record { value = 0; timestamp = 1; node = codes "a" })
unfolding epoch_register epoch_key as_register Replicator.get Replicator.downcast_at Map.get
    Map.insert Map.empty Map.lookup Map.set text_beq
fresh_register = refl

fresh-epoch : epoch fresh + 1 < u64_mod
unfolding epoch value_of epoch_register epoch_key as_register Replicator.get Replicator.downcast_at
    Map.get Map.insert Map.empty Map.lookup Map.set text_beq
fresh-epoch = omega arith

reset_lem_example :
    (reset fresh two_people ≡ (ok (epoch fresh + 1), advanced fresh))
    × (epoch (advanced fresh) ≡ epoch fresh + 1)
    × (is_engaged (advanced fresh) ≡ enabled_of (flag_at fresh (epoch fresh + 1)))
    × ((e : ℕ) → flag_at (advanced fresh) e ≡ flag_at fresh e)
reset_lem_example =
    reset_lem fresh two_people (record { value = 0; timestamp = 1; node = codes "a" })
      two_people-IsAuthorised fresh_register (omega arith) fresh-epoch (omega arith)

-- The register was last written by another node, whose clock is at 9.
abbrev behind : ClusterKillSwitch
behind = record fresh {
  replicator = record {
    store =
        Map.insert
          (Map.insert Map.empty (codes "k::epoch")
            (register record { value = 3; timestamp = 9; node = codes "b" }))
          (codes "k::flag::3") (flag record { enabled = true });
    subscribers = Map.empty;
    next_sub_id = 0;
  };
}

behind_register :
    epoch_register behind ≡ some (record { value = 3; timestamp = 9; node = codes "b" })
unfolding epoch_register epoch_key as_register Replicator.get Replicator.downcast_at Map.get
    Map.insert Map.empty Map.lookup Map.set text_beq
behind_register = refl

behind-epoch : epoch behind + 1 < u64_mod
unfolding epoch value_of epoch_register epoch_key as_register Replicator.get Replicator.downcast_at
    Map.get Map.insert Map.empty Map.lookup Map.set text_beq
behind-epoch = omega arith

reset_lost_example :
    (reset behind two_people ≡ (ok (epoch behind + 1), advanced behind))
    × (epoch (advanced behind) ≡ epoch behind)
    × (is_engaged (advanced behind) ≡ is_engaged behind)
reset_lost_example =
    reset_lost behind two_people (record { value = 3; timestamp = 9; node = codes "b" })
      two_people-IsAuthorised behind_register (omega arith) behind-epoch (omega arith)

abbrev in_time : ℕ → Bool
in_time rx = nat_beq rx 7

report-timed_out_example :
    ((report
        (absorb in_time (start_quiescence in_time fresh).2 (ack (codes "b") 0 ∷ []))
        (epoch fresh)
        (start_quiescence in_time fresh).0).timed_out
      ≡ false)
    ↔ (All (λ rx. in_time rx ≡ true) (receivers fresh.guarded)
        × All (λ p. Came p (epoch fresh) (ack (codes "b") 0 ∷ [])) (waited fresh.transport))
report-timed_out_example = report-timed_out in_time in_time fresh (ack (codes "b") 0 ∷ [])

-- A name with a space behind it counts as another person.
abbrev one_person : ResetAuthorization
one_person = record { approver_a = codes "amy"; approver_b = codes "amy " }

one_person_resets : (reset fresh one_person).0 ≡ ok 1
unfolding reset trim trim_start space_at reverse text_beq epoch value_of epoch_register epoch_key
    as_register Replicator.get Replicator.downcast_at Map.get Map.insert Map.empty Map.lookup
    Map.set
one_person_resets = refl
