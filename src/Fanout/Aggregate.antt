-- ===== src/Fanout/Aggregate.antt =====
-- `aggregate` of src/central/managers/delegation/fanout-manager.ts, and what it reports of each device.
use newconduit.Base.{
  Bool, List, Option, String, [], arith, default, false, if◌then◌else◌, keep, length,
  length-keep-le, length-map, map, none, refl, some, sym, true, ◌+◌, ◌-◌, ◌∷◌, ◌≡◌,
}
use newconduit.Fanout.{is_completed}
use newconduit.Model.{
  Aggregate, DelegationFailure, DeviceOutcome, FanoutGroupMember, JsonValue, Observation, observed,
  parsed, raw, unobserved,
}
use newconduit.Storage.Claims.{device_refs}

abbrev text_of : Option String → String
text_of r = default r ""

-- `JSON.parse`, with the text itself where that throws.
observation_of : (String → Option JsonValue) → String → Observation
observation_of parse t = elim (parse t) [ none ↦ raw t | some v ↦ parsed v ]

abbrev failure_code : Option DelegationFailure → String
failure_code none = "failed"
failure_code (some f) = f.code

abbrev failure_message : Option DelegationFailure → String
failure_message none = ""
failure_message (some f) = f.message

device_outcome : (String → Option JsonValue) → FanoutGroupMember → DeviceOutcome
unfolding observation_of
device_outcome parse m =
    if is_completed m.status
    then observed m.device_ref (observation_of parse (text_of m.result))
    else unobserved m.device_ref (failure_code m.failure) (failure_message m.failure)

-- The members that completed.
completed_members : List FanoutGroupMember → List FanoutGroupMember
completed_members = keep λ m. is_completed m.status

pub aggregate : (String → Option JsonValue) → List FanoutGroupMember → Aggregate
unfolding completed_members
aggregate parse members = record {
  total = length members;
  completed_count = length (completed_members members);
  failed_count = length members - length (completed_members members);
  devices = map (device_outcome parse) members;
}

-- The device that an entry of the aggregate is about.
abbrev pub device_of : DeviceOutcome → String
device_of (observed ref o) = ref
device_of (unobserved ref code message) = ref

abbrev pub is_observed : DeviceOutcome → Bool
is_observed (observed ref o) = true
is_observed (unobserved ref code message) = false

device-outcome :
    (parse : String → Option JsonValue) (m : FanoutGroupMember)
    → device_of (device_outcome parse m) ≡ m.device_ref
unfolding device_outcome
device-outcome parse m = ground arith

devices-aggregate :
    (parse : String → Option JsonValue) (members : List FanoutGroupMember)
    → map device_of (map (device_outcome parse) members) ≡ device_refs members
devices-aggregate parse [] = refl
devices-aggregate parse (m ∷ rest) = cc (device-outcome parse m, devices-aggregate parse rest)

observed-count :
    (parse : String → Option JsonValue) (members : List FanoutGroupMember)
    → length (keep is_observed (map (device_outcome parse) members))
      ≡ length (completed_members members)
unfolding device_outcome completed_members
observed-count parse [] = refl
observed-count parse (m ∷ rest) = ground (arith, observed-count parse rest)

-- The aggregate has one entry for each member, in the members' order; its numbers are those of all
-- entries, of the observed ones and of the rest, which add up.
pub aggregate_counts :
    (parse : String → Option JsonValue) (members : List FanoutGroupMember)
    → let a = aggregate parse members in
      (map device_of a.devices ≡ device_refs members)
      × (a.total ≡ length a.devices)
      × (a.completed_count ≡ length (keep is_observed a.devices))
      × (a.completed_count + a.failed_count ≡ a.total)
unfolding aggregate
aggregate_counts parse members = (
  devices-aggregate parse members,
  sym (length-map (device_outcome parse) members),
  sym (observed-count parse members),
  unfold completed_members in omega (arith, length-keep-le (λ m. is_completed m.status) members),
)
