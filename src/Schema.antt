-- ===== src/Schema.antt =====
-- The rows of the SQLite tables of src/hermes_managed_network/storage.py (with the Node of inventory.py
-- and the JoinToken of tokens.py), the state of the store, and what it takes from outside.
-- A `datetime` is the number of microseconds since the epoch (the source keeps UTC; the ISO texts of
-- the columns sort as the times do).
use hermes_managed_network.Prelude.{ℕ, ◌+◌, String, Bool, Option, List, []}
use hermes_managed_network.Json.{ℤ, Json, Fields, null, bool, string, is_truthy, get}
use hermes_managed_network.Prelude.{true, false, none, some, if◌then◌else◌}

pub record JoinToken : Type 0 where
  pub value : String
  pub trust_level : String
  pub labels : List String
  pub expires_at : ℕ
  pub status : String
  pub created_at : ℕ
  pub used_at : Option ℕ
  pub node_fingerprint : Option String

pub record Node : Type 0 where
  pub node_id : String
  pub fingerprint : String
  pub hostname : String
  pub addresses : List String
  pub trust_level : String
  pub labels : List String
  pub status : String
  pub permission_bundles : List String
  pub ssh_host : String
  pub ssh_user : String
  pub ssh_port : ℕ
  pub network_provider : String
  pub network_node_id : String
  pub network_ip : String
  pub network_tags : List String
  pub network_online : Bool

pub record Task : Type 0 where
  pub task_id : String
  pub node_id : String
  pub command : String
  pub risk : String
  pub status : String
  pub created_by : String
  pub created_at : ℕ
  pub executor : String
  pub started_at : Option ℕ
  pub completed_at : Option ℕ
  pub exit_code : Option ℤ
  pub stdout : String
  pub stderr : String
  pub claimed_at : Option ℕ
  pub lease_expires_at : Option ℕ
  pub attempt_count : ℕ
  pub failure_reason : String

pub record ApprovalRequest : Type 0 where
  pub approval_id : String
  pub subject_type : String
  pub subject_id : String
  pub action : String
  pub risk : String
  pub status : String
  pub requested_by : String
  pub details : Fields
  pub created_at : ℕ
  pub decided_by : String
  pub decided_at : Option ℕ

pub record Notification : Type 0 where
  pub notification_id : String
  pub channel : String
  pub subject_type : String
  pub subject_id : String
  pub status : String
  pub payload : Fields
  pub created_at : ℕ
  pub delivered_at : Option ℕ

pub record AuditEvent : Type 0 where
  pub event_type : String
  pub subject_type : String
  pub subject_id : String
  pub action : String
  pub outcome : String
  pub details : Fields
  pub created_at : ℕ

pub record NodeComponent : Type 0 where
  pub node_id : String
  pub component_id : String
  pub desired_state : String
  pub current_state : String
  pub config : Fields
  pub installed_version : String
  pub driver : String
  pub last_plan_id : String
  pub last_run_id : String
  pub last_verified_at : Option ℕ

pub record ComponentRun : Type 0 where
  pub run_id : String
  pub component_id : String
  pub node_id : String
  pub action : String
  pub risk : String
  pub status : String
  pub plan : Fields
  pub result : Fields
  pub created_by : String
  pub created_at : ℕ
  pub completed_at : Option ℕ

-- The database, with how often the clock was read and how many identifiers were drawn so far.
pub record Store : Type 0 where
  pub join_tokens : List JoinToken
  pub nodes : List Node
  pub audit_events : List AuditEvent
  pub tasks : List Task
  pub approval_requests : List ApprovalRequest
  pub notifications : List Notification
  pub node_components : List NodeComponent
  pub component_runs : List ComponentRun
  pub reads : ℕ
  pub draws : ℕ

-- What the store takes from Python: the value of each call of `datetime.now(timezone.utc)` and of
-- `uuid4().hex[:12]`, `datetime.isoformat`, and the `repr` of a value that is no text.
pub record Env : Type 0 where
  pub now : ℕ → ℕ
  pub hex12 : ℕ → String
  pub isoformat : ℕ → String
  pub repr : Json → String

-- An exception that leaves an operation. A transaction that raises is rolled back.
pub data Error : Type 0 where
  value_error integrity_error type_error permission_error assertion_error attribute_error
        runtime_error :
      Error
  ssh_execution_error timeout_expired os_error : Error
  network_provider_error : String → Error

pub data Result {ℓ} (A : Type ℓ) : Type ℓ where
  ok : A → Result A
  raised : Error → Result A

abbrev pub new_store : Store
new_store = record {
  join_tokens = [];
  nodes = [];
  audit_events = [];
  tasks = [];
  approval_requests = [];
  notifications = [];
  node_components = [];
  component_runs = [];
  reads = 0;
  draws = 0;
}

module _ (env : Env) where
  -- datetime.now(timezone.utc)
  abbrev pub now : Store → ℕ
  now s = env.now s.reads

  -- str(value)
  unfoldable pub str : Json → String
  str (string t) = t
  str null = "None"
  str (bool true) = "True"
  str (bool false) = "False"
  str v = env.repr v

  or_else : String → Option Json → String
  or_else default none = default
  or_else default (some v) = if is_truthy v then str v else default

  -- str(d.get(key) or default)
  unfoldable pub str_or : String → Fields → String → String
  unfolding or_else
  str_or key d default = or_else default (get key d)

-- the store after one more reading of the clock, and after one more identifier
abbrev pub read_clock : Store → Store
read_clock s = record s { reads = s.reads + 1 }

abbrev pub draw_id : Store → Store
draw_id s = record s { draws = s.draws + 1 }
