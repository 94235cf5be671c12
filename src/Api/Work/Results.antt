-- ===== src/Api/Work/Results.antt =====
-- Whose results the API accepts.
use hermes_managed_network.Prelude.{
  ℕ, String, ◌≡◌, refl, sym, ap, ◌∙◌, true, false, Option, none, some, ◌==◌, eq_refl, eq→path, inl,
  inr, ◌⊎◌, Bool-cases, if◌then◌else◌,
}
use mathlib.Core.Option.{some-injective}
use mathlib.Core.Path.{subst}
use hermes_managed_network.Schema.{Node, Task, Store, Env, now}
use hermes_managed_network.Nodes.{load_node}
use hermes_managed_network.Tasks.{load_task, result_status, completed, complete_task}
use hermes_managed_network.Tasks.Rows.{is_running, finished, or_same}
use hermes_managed_network.Tasks.Report.{complete_task_outcome}
use hermes_managed_network.Api.{
  Reply, answer, http, Caller, known, refused, managed_caller, caller_known,
}
use hermes_managed_network.Api.Work.{
  TaskResultRequest, StatusResponse, after_result, result_by, result_for, task_result,
}

module _ (env : Env) (s : Store) (task_id : String) (request : TaskResultRequest) where
  abbrev reported : Task → Task
  reported task = completed (now env s) request.exit_code request.out request.err task

  -- a result that is accepted, for the task of the node that reports it
  pub record Accepted (s' : Store) (o : Option Task) : Type 0 where
    pub task : Task
    pub there : o ≡ some task
    pub running : task.status ≡ "running"
    pub node : Node
    pub on : load_node s task.node_id ≡ some node
    pub managed : node.status ≡ "managed"
    pub fingerprint : node.fingerprint ≡ request.fingerprint
    pub stored : load_task s' task_id ≡ some (reported task)

  -- the two ways in which a report ends: as it was, with a refusal, or accepted and answered
  pub data Reported (o : Option Task) (r : Store × Reply StatusResponse) : Type 0 where
    turned_down :
        (code : ℕ) (detail : String)
        → r.1 ≡ http code detail
        → ((w : String) → load_task r.0 w ≡ load_task s w)
        → Reported o r
    accepted :
        (a : Accepted r.0 o)
        → r.1 ≡ answer (record { id = a.task.task_id; status = result_status request.exit_code })
        → Reported o r

  after_none :
      (r : Store × Option Task)
      → r.1 ≡ none
      → after_result env r ≡ (r.0, http 409 "task is already terminal")
  unfolding after_result
  after_none (s', none) e = refl
  after_none (s', some u) e = cc

  after_some :
      (r : Store × Option Task) (t : Task)
      → r.1 ≡ some t
      → after_result env r ≡ (r.0, answer (record { id = t.task_id; status = t.status }))
  unfolding after_result
  after_some (s', none) t e = cc
  after_some (s', some u) t e =
      ap (λ x. (s', answer (record { id = x.task_id; status = x.status }))) (some-injective u t e)

  abbrev done : Store × Option Task
  done = complete_task env s task_id request.exit_code request.out request.err

  module _ (task : Task) (there : load_task s task_id ≡ some task) where
    done_running : is_running task ≡ true → done.1 ≡ some (reported task)
    unfolding finished
    done_running e =
        (complete_task_outcome env s task_id task_id request.exit_code request.out request.err).0
        ∙ rw (there, e)

    stored_running : is_running task ≡ true → load_task done.0 task_id ≡ some (reported task)
    unfolding finished or_same
    stored_running e =
        (complete_task_outcome env s task_id task_id request.exit_code request.out request.err).1
        ∙ rw (eq_refl, there, e)

    done_idle : is_running task ≡ false → done.1 ≡ none
    unfolding finished
    done_idle e =
        (complete_task_outcome env s task_id task_id request.exit_code request.out request.err).0
        ∙ rw (there, e)

    kept_idle : is_running task ≡ false → (w : String) → load_task done.0 w ≡ load_task s w
    unfolding finished or_same
    kept_idle e w =
        (complete_task_outcome env s task_id w request.exit_code request.out request.err).1
        ∙ rw (there, e) (same_row (Bool-cases (task_id == w)))
      where
        same_row :
            ((task_id == w) ≡ true) ⊎ ((task_id == w) ≡ false)
            → (if task_id == w then some task else load_task s w) ≡ load_task s w
        same_row (inl p) = rw p (sym there ∙ ap (λ k. load_task s k) (eq→path task_id w p))
        same_row (inr p) = rw p

    of_caller :
        (caller : Caller)
        → managed_caller (load_node s task.node_id) request.fingerprint ≡ caller
        → Reported (load_task s task_id) (result_by env s task_id request caller)
    unfolding result_by
    of_caller (refused code detail) p = turned_down code detail refl (λ w. refl)
    of_caller (known node) p =
        let (on, managed, same) =
          caller_known (load_node s task.node_id) request.fingerprint node p in
        elim (Bool-cases (is_running task)) [
          | inl e ↦ rw (after_some done (reported task) (done_running e)) (
              accepted
                (record {
                  task = task;
                  there = there;
                  running = eq→path task.status "running" e;
                  node = node;
                  on = on;
                  managed = managed;
                  fingerprint = same;
                  stored = stored_running e;
                })
                refl)
          | inr e ↦ rw (after_none done (done_idle e)) (turned_down 409 _ refl (kept_idle e))
        ]

  of_task :
      (o : Option Task) → load_task s task_id ≡ o → Reported o (result_for env s task_id request o)
  unfolding result_for
  of_task none e = turned_down 404 _ refl (λ w. refl)
  of_task (some task) e =
      subst
        (λ z. Reported z (
          result_by env s task_id request
            (managed_caller (load_node s task.node_id) request.fingerprint)))
        e (of_caller task e (managed_caller (load_node s task.node_id) request.fingerprint) refl)

  -- A result over HTTP is refused and changes no task, or its task is running and assigned to a managed
  -- node with the fingerprint of the request; then the task is stored with the result and the answer
  -- names it with its new status.
  pub task_result-Reported : Reported (load_task s task_id) (task_result env s task_id request)
  unfolding task_result
  task_result-Reported = of_task (load_task s task_id) refl
