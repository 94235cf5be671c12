-- ===== src/Api/Work/Handing.antt =====
-- What a worker is handed over HTTP, and to which node.
use mathlib.Core.Path.{subst}
use hermes_managed_network.Prelude.{
  String, ◌≡◌, refl, ap, ◌∙◌, true, Option, none, some, arith, eq_refl, eq→path, inl, inr,
  Bool-cases,
}
use hermes_managed_network.Table.{IsKeyed}
use hermes_managed_network.Schema.{Node, Task, Store, Env, now, read_clock}
use hermes_managed_network.Version.{worker_protocol_version, is_worker_compatible}
use hermes_managed_network.Signing.{sign_task_payload, verify_task_signature}
use hermes_managed_network.Nodes.{load_node}
use hermes_managed_network.Tasks.{
  task_key, load_task, claim_next_task, expire_stuck_tasks, is_waiting,
}
use hermes_managed_network.Tasks.Claim.{claim_next_task-Handed}
use hermes_managed_network.Tasks.Lifecycle.{Step}
use hermes_managed_network.Tasks.Keys.{Step-IsKeyed}
use hermes_managed_network.Api.{
  Reply, answer, http, Caller, known, refused, managed_caller, caller_known,
}
use hermes_managed_network.Api.Work.{
  NodeAuthRequest, TaskResponse, task_response, hand_out, next_task_by, next_task,
}

-- Signing a task and verifying the signature with the same fingerprint agree.
verify_signed :
    (hmac_sha256 : String → String → String) (fingerprint task_id command risk : String)
    → verify_task_signature hmac_sha256 fingerprint task_id command risk
        (sign_task_payload hmac_sha256 fingerprint task_id command risk)
      ≡ true
unfolding verify_task_signature
verify_signed hmac_sha256 fingerprint task_id command risk = rw eq_refl

waits_for_node :
    (node_id executor : String) (t : Task)
    → is_waiting node_id executor t ≡ true
    → t.node_id ≡ node_id
waits_for_node node_id executor t h = eq→path t.node_id node_id (ground arith)

module _ (env : Env) (hmac_sha256 : String → String → String) (s : Store) (node_id : String)
    (request : NodeAuthRequest) where
  abbrev swept : Store
  swept = (expire_stuck_tasks env 0 s).0

  -- what is handed out, and to whom
  pub record Assigned (s' : Store) (response : TaskResponse) : Type 0 where
    pub node : Node
    pub on : load_node s node_id ≡ some node
    pub managed : node.status ≡ "managed"
    pub fingerprint : node.fingerprint ≡ request.fingerprint
    pub compatible : is_worker_compatible worker_protocol_version request.worker_version ≡ true
    pub task : Task
    pub there : load_task s' response.task_id ≡ some task
    pub own_id : task.task_id ≡ response.task_id
    pub own_node : task.node_id ≡ node_id
    pub running : task.status ≡ "running"
    pub command : response.command ≡ task.command
    pub risk : response.risk ≡ task.risk
    pub signed :
        verify_task_signature hmac_sha256 request.fingerprint response.task_id response.command
          response.risk response.signature
        ≡ true

  module _ (keyed : IsKeyed task_key s.tasks) where
    IsKeyed-swept : IsKeyed task_key swept.tasks
    unfolding expire_stuck_tasks
    IsKeyed-swept = Step-IsKeyed env (Step.expire (read_clock s) (now env s) 0) keyed

    of_claim :
        (node : Node) (o : Option Task) (response : TaskResponse)
        → load_node s node_id ≡ some node
        → node.status ≡ "managed"
        → node.fingerprint ≡ request.fingerprint
        → is_worker_compatible worker_protocol_version request.worker_version ≡ true
        → (claim_next_task env swept node_id "worker" 900).1 ≡ o
        → (hand_out env hmac_sha256 node ((claim_next_task env swept node_id "worker" 900).0, o)).1
          ≡ answer (some response)
        → Assigned
            (hand_out env hmac_sha256 node
              ((claim_next_task env swept node_id "worker" 900).0, o)).0
            response
    unfolding hand_out
    of_claim node none response on managed same compatible e h = cc
    of_claim node (some task) response on managed same compatible e h =
        let same_response : task_response env hmac_sha256 node task ≡ response = cc h in
        let handed = claim_next_task-Handed env swept node_id "worker" 900 IsKeyed-swept task e in
        subst (λ z. Assigned (claim_next_task env swept node_id "worker" 900).0 z) same_response
          (record {
            node = node;
            on = on;
            managed = managed;
            fingerprint = same;
            compatible = compatible;
            task = task;
            there = handed.stored task.task_id ∙ rw eq_refl;
            own_id = refl;
            own_node =
                ap (λ t. t.node_id) handed.handed
                ∙ waits_for_node node_id "worker" handed.task handed.waiting;
            running = ap (λ t. t.status) handed.handed;
            command = refl;
            risk = refl;
            signed =
                rw (← same)
                  (verify_signed hmac_sha256 node.fingerprint task.task_id task.command task.risk);
          })

    not_answered :
        {response : TaskResponse} {detail : String}
        → ◌≡◌ {A = Reply (Option TaskResponse)} (http 426 detail) (answer (some response))
        → ⊥
    not_answered h = cc

    of_caller :
        (caller : Caller) (response : TaskResponse)
        → managed_caller (load_node s node_id) request.fingerprint ≡ caller
        → (next_task_by env hmac_sha256 s node_id request caller).1 ≡ answer (some response)
        → Assigned (next_task_by env hmac_sha256 s node_id request caller).0 response
    unfolding next_task_by
    of_caller (refused code detail) response p h = cc
    of_caller (known node) response p h =
        let (on, managed, same) = caller_known (load_node s node_id) request.fingerprint node p in
        elim (Bool-cases (is_worker_compatible worker_protocol_version request.worker_version)) [
          | inl fits ↦ rw fits (
              of_claim node (claim_next_task env swept node_id "worker" 900).1 response on managed
                same fits refl (rw fits at h))
          | inr old ↦ absurd (not_answered (rw old at h))
        ]

    -- With unique task ids, a task that a node is handed over HTTP is a task of that node, stored as
    -- running with the command and the risk of the answer; the node is managed, the request carries
    -- its fingerprint and a compatible protocol version, and the signature of the answer verifies
    -- under that fingerprint.
    pub next_task-Assigned :
        (response : TaskResponse)
        → (next_task env hmac_sha256 s node_id request).1 ≡ answer (some response)
        → Assigned (next_task env hmac_sha256 s node_id request).0 response
    unfolding next_task
    next_task-Assigned response h =
        of_caller (managed_caller (load_node s node_id) request.fingerprint) response refl h
