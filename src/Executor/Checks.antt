-- ===== src/Executor/Checks.antt =====
-- What run_ssh_task tests before it starts a command.
use hermes_managed_network.Prelude.{
  String, ◌≡◌, refl, ◌⊎◌, inl, inr, true, Option, none, some, List, ◌==◌, eq→path, path→eq,
  Bool-cases,
}
use hermes_managed_network.Table.{contains}
use hermes_managed_network.Schema.{Node, Task, Store, Env, Error, Result, ok, raised}
use hermes_managed_network.Nodes.{load_node}
use hermes_managed_network.Tasks.{load_task}
use hermes_managed_network.Executor.{
  SshTarget, Shell, allowed_risks, ssh_target_details_for_node, with_target, checked_node,
  ssh_checks, execute_ssh, run_ssh_task,
}

module _ (env : Env) where
  -- a task that may run, and the target on its node
  pub record MayRun (s : Store) (allow_risk : List String) (o : Option Task) (task : Task)
      (target : SshTarget) : Type 0 where
    pub there : o ≡ some task
    pub executor : task.executor ≡ "ssh"
    pub risk : contains (allowed_risks allow_risk) task.risk ≡ true
    pub node : Node
    pub on : load_node s task.node_id ≡ some node
    pub managed : node.status ≡ "managed"
    pub target_of : ssh_target_details_for_node env node ≡ ok target

  -- the two ways in which the tests end
  pub data Checked (s : Store) (allow_risk : List String) (o : Option Task)
      (r : Result (Task × SshTarget)) : Type 0 where
    refused : (e : Error) → r ≡ raised e → Checked s allow_risk o r
    passed :
        (task : Task) (target : SshTarget)
        → MayRun s allow_risk o task target
        → r ≡ ok (task, target)
        → Checked s allow_risk o r

  module _ (s : Store) (allow_risk : List String) (task : Task) (for_ssh : task.executor ≡ "ssh")
      (risk : contains (allowed_risks allow_risk) task.risk ≡ true) where
    of_target :
        (node : Node) (t : Result SshTarget)
        → load_node s task.node_id ≡ some node
        → node.status ≡ "managed"
        → ssh_target_details_for_node env node ≡ t
        → Checked s allow_risk (some task) (with_target env task t)
    unfolding with_target
    of_target node (raised e) on managed at = refused e refl
    of_target node (ok target) on managed at =
        passed task target
          (record {
            there = refl;
            executor = for_ssh;
            risk = risk;
            node = node;
            on = on;
            managed = managed;
            target_of = at;
          })
          refl

    of_node :
        (o : Option Node)
        → load_node s task.node_id ≡ o
        → Checked s allow_risk (some task) (checked_node env task o)
    unfolding checked_node
    of_node none on = refused _ refl
    of_node (some node) on = elim (Bool-cases (node.status == "managed")) [
      | inl e ↦ rw e (
          of_target node (ssh_target_details_for_node env node) on (eq→path node.status "managed" e)
            refl)
      | inr e ↦ rw e (refused _ refl)
    ]

  pub ssh_checks-Checked :
      (s : Store) (allow_risk : List String) (o : Option Task)
      → Checked s allow_risk o (ssh_checks env s allow_risk o)
  unfolding ssh_checks
  ssh_checks-Checked s allow_risk none = refused _ refl
  ssh_checks-Checked s allow_risk (some task) = elim (Bool-cases (task.executor == "ssh")) [
    | inr e ↦ rw e (refused _ refl)
    | inl e ↦ elim (Bool-cases (contains (allowed_risks allow_risk) task.risk)) [
      | inr f ↦ rw (e, f) (refused _ refl)
      | inl f ↦
          rw (e, f)
            (of_node s allow_risk task (eq→path task.executor "ssh" e) f (load_node s task.node_id)
              refl)
    ]
  ]

  -- The tests pass for every task that may run.
  pub ssh_checks_pass :
      (s : Store) (allow_risk : List String) (o : Option Task) (task : Task) (target : SshTarget)
      → MayRun s allow_risk o task target
      → ssh_checks env s allow_risk o ≡ ok (task, target)
  unfolding ssh_checks checked_node with_target
  ssh_checks_pass s allow_risk o task target may = rw (
    may.there,
    path→eq task.executor "ssh" may.executor,
    may.risk,
    may.on,
    path→eq may.node.status "managed" may.managed,
    may.target_of,
  )

  guarded_of :
      (shell : Shell) (s : Store) (allow_risk : List String) (o : Option Task)
      (r : Result (Task × SshTarget))
      → Checked s allow_risk o r
      → ((execute_ssh env shell s r).0 ≡ s)
        ⊎ ((task : Task) × (target : SshTarget) × MayRun s allow_risk o task target)
  unfolding execute_ssh
  guarded_of shell s allow_risk o r (refused e p) = inl (rw p)
  guarded_of shell s allow_risk o r (passed task target may p) = inr (task, target, may)

  -- A run of a task over SSH changes nothing at all, unless the task is there, is meant for the SSH
  -- executor, has a risk that is allowed ("low" or "medium" if no other is named), and its node is
  -- managed and has a host to reach it by.
  pub run_ssh_task_guarded :
      (shell : Shell) (s : Store) (task_id : String) (allow_risk : List String)
      → ((run_ssh_task env shell s task_id allow_risk).0 ≡ s)
        ⊎ ((task : Task) × (target : SshTarget) × MayRun s allow_risk
              (load_task s task_id)
              task
              target)
  unfolding run_ssh_task
  run_ssh_task_guarded shell s task_id allow_risk =
      guarded_of shell s allow_risk (load_task s task_id)
        (ssh_checks env s allow_risk (load_task s task_id))
        (ssh_checks-Checked s allow_risk (load_task s task_id))
