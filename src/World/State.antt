-- ===== src/World/State.antt =====
-- The state of src/central/storage/local-file-storage.ts, one table for each directory, and the
-- host's functions that the source calls: `Date`, `crypto`, `JSON.parse`.
use newconduit.Base.{Bool, List, Option, String, Table, [], ℕ}
use newconduit.Model.{
  AgentRuntimeToolDefinition, AgentSpec, CaseDeviceBindingRecord, DelegationRecord,
  FanoutGroupRecord, InteractionRecord, JsonValue, PairingInviteRecord, RuntimeChannel,
  RuntimeEvent, SessionRecord, WorkerRecord, WorkspaceSnapshot,
}

pub record Store : Type 0 where
  pub sessions : Table String SessionRecord
  pub session_logs : Table String (List RuntimeEvent)
  pub workers : Table String WorkerRecord
  pub worker_logs : Table String (List RuntimeEvent)
  pub snapshots : Table (String × String) WorkspaceSnapshot
  pub delegations : Table String DelegationRecord
  pub interactions : Table String InteractionRecord
  pub invites : Table String PairingInviteRecord
  pub bindings : Table (String × String) CaseDeviceBindingRecord
  pub groups : Table String FanoutGroupRecord

-- `clock i` is the i-th reading of the clock, in milliseconds; `uuid i` and `token i n` are the i-th
-- random identifier and the i-th random token, of n bytes in hexadecimal digits. `hex_bytes` is
-- `Buffer.from(_, 'hex')`. `takes sent` is whether the event transport takes an event after those in
-- `sent`; a transport that is not configured takes every event. `quote_json` and `json_text` are `JSON.stringify` of a text and of a value, and `spec_json` that of an agent
-- spec with its tools.
pub record Host : Type 0 where
  pub clock : ℕ → ℕ
  pub uuid : ℕ → String
  pub token : ℕ → ℕ → String
  pub hmac_hex : String → String → String
  pub sha256_hex : String → String
  pub hex_bytes : String → List ℕ
  pub parse_json : String → Option JsonValue
  pub quote_json : String → String
  pub json_text : JsonValue → String
  pub takes : List (RuntimeChannel × RuntimeEvent) → RuntimeChannel → RuntimeEvent → Bool
  pub spec_json : AgentSpec → List AgentRuntimeToolDefinition → String

-- `rivals` are the writes of other tasks, in the order in which they get their turn: one at each
-- place where an operation waits between a read and a conditional write.
pub record World : Type 0 where
  pub store : Store
  pub host : Host
  pub readings : ℕ
  pub drawn : ℕ
  pub rivals : List (Store → Store)
  -- What was handed to the transport, taken or not.
  pub published : List (RuntimeChannel × RuntimeEvent)

abbrev pub no_records : Store
no_records = record {
  sessions = [];
  session_logs = [];
  workers = [];
  worker_logs = [];
  snapshots = [];
  delegations = [];
  interactions = [];
  invites = [];
  bindings = [];
  groups = [];
}
