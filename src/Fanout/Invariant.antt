-- ===== src/Fanout/Invariant.antt =====
-- Well-formed groups of src/central/managers/delegation/fanout-manager.ts, and its changes of one.
use newconduit.Base.{
  Bool, List, Option, String, [], arith, false, find, if◌then◌else◌, map, none, not, some, true, ℕ,
  ◌&&◌, ◌∷◌, ◌≡◌,
}
use newconduit.Fanout.{is_delivered, is_done, is_settled, is_starting}
use newconduit.Fanout.Aggregate.{aggregate}
use newconduit.Fanout.Rounds.{
  FanoutMemberOutcome, all_done, attach_one, attached, delivered_group, has_ref, recorded,
}
use newconduit.Model.{FanoutGroupMember, FanoutGroupRecord, JsonValue}

-- A group is settled exactly when no member is left, has its aggregate exactly then, and is
-- delivered only then.
pub record IsWellFormed (parse : String → Option JsonValue) (g : FanoutGroupRecord) : Type 0 where
  pub settled_when_done : is_settled g.status ≡ all_done g.members
  pub aggregate_when_settled :
      g.aggregate ≡ (if is_settled g.status then some (aggregate parse g.members) else none)
  pub delivered_when_settled : (is_delivered g.delivery_status && not (is_settled g.status)) ≡ false

-- A member that is not done keeps the group open.
pub find-not_done :
    (p : FanoutGroupMember → Bool) (ms : List FanoutGroupMember) (m : FanoutGroupMember)
    → find p ms ≡ some m
    → is_done m.status ≡ false
    → all_done ms ≡ false
find-not_done p [] m e h = ground arith
find-not_done p (x ∷ ms) m e h = ground (arith, find-not_done p ms m)

all_done-attach :
    (ref call_id : String) (t : ℕ) (ms : List FanoutGroupMember) (m : FanoutGroupMember)
    → find (has_ref ref) ms ≡ some m
    → all_done (map (attach_one ref call_id t) ms) ≡ false
unfolding attach_one
all_done-attach ref call_id t [] m e = ground arith
all_done-attach ref call_id t (x ∷ ms) m e = ground (arith, all_done-attach ref call_id t ms m)

module _ {parse : String → Option JsonValue} {g : FanoutGroupRecord}
    (v : IsWellFormed parse g) where
  pub attached-IsWellFormed :
      (ref call_id : String) (t : ℕ) (m : FanoutGroupMember)
      → find (has_ref ref) g.members ≡ some m
      → is_starting m.status ≡ true
      → IsWellFormed parse (attached g ref call_id t)
  unfolding attached
  attached-IsWellFormed ref call_id t m e h =
      ground
        (arith, find-not_done (has_ref ref) g.members m, all_done-attach ref call_id t g.members m)

  pub recorded-IsWellFormed :
      (matches : FanoutGroupMember → Bool) (outcome : FanoutMemberOutcome) (t : ℕ)
      → is_settled g.status ≡ false
      → IsWellFormed parse (recorded parse matches outcome t g)
  unfolding recorded
  recorded-IsWellFormed matches outcome t h = ground arith

  pub delivered_group-IsWellFormed :
      (t : ℕ) → is_settled g.status ≡ true → IsWellFormed parse (delivered_group g t)
  unfolding delivered_group
  delivered_group-IsWellFormed t h = ground arith
