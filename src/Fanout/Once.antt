-- ===== src/Fanout/Once.antt =====
-- `recordOutcomeInGroup` of src/central/managers/delegation/fanout-manager.ts, after a group settled.
use newconduit.Base.{list_eq, nat_eq, option_eq, pair_eq, string_eq}
use newconduit.Model.{Aggregate, condition_eq, event_type_eq, lifecycle_eq, status_eq}
use newconduit.World.{World}
