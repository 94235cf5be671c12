-- ===== src/Api/Work.antt =====
-- The requests of a worker, src/hermes_managed_network/api.py: heartbeat, fingerprint rotation, the
-- next task and the result of a task.
pub mod Handing
pub mod Results
use hermes_managed_network.Prelude.{
  String, Bool, true, false, Option, none, some, ◌==◌, not, if◌then◌else◌,
}
use hermes_managed_network.Json.{ℤ, Json, Fields, bool, string, obj, field, end, get}
use hermes_managed_network.Schema.{Node, Task, Store, Env, attribute_error}
use hermes_managed_network.Version.{
  worker_protocol_version, is_worker_compatible, reported_compatible,
}
use hermes_managed_network.Signing.{sign_task_payload}
use hermes_managed_network.Audit.{record_audit}
use hermes_managed_network.Nodes.{load_node, rotate_node_fingerprint}
use hermes_managed_network.Tasks.{load_task, claim_next_task, expire_stuck_tasks, complete_task}
use hermes_managed_network.Api.{Reply, answer, http, crash, Caller, known, refused, managed_caller}

pub record HeartbeatRequest : Type 0 where
  pub fingerprint : String
  pub status : String
  pub facts : Fields

pub record HeartbeatResponse : Type 0 where
  pub node_id : String
  pub status : String
  pub master_version : String
  pub worker_compatible : Bool

pub record RotateFingerprintRequest : Type 0 where
  pub fingerprint : String
  pub new_fingerprint : String

pub record NodeAuthRequest : Type 0 where
  pub fingerprint : String
  pub worker_version : Option String

pub record TaskResponse : Type 0 where
  pub task_id : String
  pub command : String
  pub risk : String
  pub signature : String

pub record TaskResultRequest : Type 0 where
  pub fingerprint : String
  pub exit_code : ℤ
  pub out : String
  pub err : String

-- the node_id and status of a response
pub record StatusResponse : Type 0 where
  pub id : String
  pub status : String

module _ (env : Env) where
  unfoldable pub heartbeat_of :
      Store → HeartbeatRequest → Node → Option Bool → Store × Reply HeartbeatResponse
  heartbeat_of s request node none = (s, crash attribute_error)
  heartbeat_of s request node (some compatible) =
      let outcome = if request.status == "ok" then "ok" else "warn" in
      (
        record_audit env s "node" "node" node.node_id "heartbeat"
            (if compatible then outcome else "warn")
            (field "status" (string request.status) (
              field "facts" (obj request.facts) (field "worker_compatible" (bool compatible) end))),
        answer (record {
          node_id = node.node_id;
          status = request.status;
          master_version = worker_protocol_version;
          worker_compatible = compatible;
        }),
      )

  unfoldable pub heartbeat_by : Store → HeartbeatRequest → Caller → Store × Reply HeartbeatResponse
  heartbeat_by s request (refused code detail) = (s, http code detail)
  heartbeat_by s request (known node) =
      heartbeat_of s request node
        (reported_compatible (get "worker_protocol_version" request.facts))

  unfoldable pub heartbeat : Store → String → HeartbeatRequest → Store × Reply HeartbeatResponse
  heartbeat s node_id request =
      heartbeat_by s request (managed_caller (load_node s node_id) request.fingerprint)

  unfoldable pub after_rotation : Store × Option Node → Store × Reply StatusResponse
  after_rotation (s, none) = (s, http 403 "node fingerprint mismatch")
  after_rotation (s, some node) = (s, answer (record { id = node.node_id; status = "rotated" }))

  unfoldable pub rotate_found :
      Store → String → RotateFingerprintRequest → Option Node → Store × Reply StatusResponse
  rotate_found s node_id request none = (s, http 404 "node not found")
  rotate_found s node_id request (some node) =
      if not (node.fingerprint == request.fingerprint)
      then (s, http 403 "node fingerprint mismatch")
      else after_rotation
          (rotate_node_fingerprint env s node_id (some request.fingerprint) request.new_fingerprint)

  unfoldable pub rotate_fingerprint :
      Store → String → RotateFingerprintRequest → Store × Reply StatusResponse
  rotate_fingerprint s node_id request = rotate_found s node_id request (load_node s node_id)

  -- what follows complete_task
  unfoldable pub after_result : Store × Option Task → Store × Reply StatusResponse
  after_result (s, none) = (s, http 409 "task is already terminal")
  after_result (s, some task) = (s, answer (record { id = task.task_id; status = task.status }))

  unfoldable pub result_by :
      Store → String → TaskResultRequest → Caller → Store × Reply StatusResponse
  result_by s task_id request (refused code detail) = (s, http code detail)
  result_by s task_id request (known node) =
      after_result (complete_task env s task_id request.exit_code request.out request.err)

  unfoldable pub result_for :
      Store → String → TaskResultRequest → Option Task → Store × Reply StatusResponse
  result_for s task_id request none = (s, http 404 "task not found")
  result_for s task_id request (some task) =
      result_by s task_id request (managed_caller (load_node s task.node_id) request.fingerprint)

  unfoldable pub task_result : Store → String → TaskResultRequest → Store × Reply StatusResponse
  task_result s task_id request = result_for s task_id request (load_task s task_id)

  module _ (hmac_sha256 : String → String → String) where
    abbrev pub task_response : Node → Task → TaskResponse
    task_response node task = record {
      task_id = task.task_id;
      command = task.command;
      risk = task.risk;
      signature =
          sign_task_payload hmac_sha256 node.fingerprint task.task_id task.command task.risk;
    }

    -- what follows claim_next_task
    unfoldable pub hand_out : Node → Store × Option Task → Store × Reply (Option TaskResponse)
    hand_out node (s, none) = (s, answer none)
    hand_out node (s, some task) = (s, answer (some (task_response node task)))

    unfoldable pub next_task_by :
        Store → String → NodeAuthRequest → Caller → Store × Reply (Option TaskResponse)
    next_task_by s node_id request (refused code detail) = (s, http code detail)
    next_task_by s node_id request (known node) =
        if not (is_worker_compatible worker_protocol_version request.worker_version)
        then (s, http 426 "worker protocol version mismatch; update node worker")
        else hand_out node (claim_next_task env (expire_stuck_tasks env 0 s).0 node_id "worker" 900)

    unfoldable pub next_task :
        Store → String → NodeAuthRequest → Store × Reply (Option TaskResponse)
    next_task s node_id request =
        next_task_by s node_id request (managed_caller (load_node s node_id) request.fingerprint)
