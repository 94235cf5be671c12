-- ===== src/Orchestrator/Choosing.antt =====
-- The choice that a tick makes.
use hermes_managed_network.Prelude.{
  ℕ, String, ◌≡◌, refl, sym, ap, ◌∙◌, true, none, some, [], ◌∷◌, ◌==◌, eq_refl,
}
use mathlib.Core.Path.{subst}
use hermes_managed_network.Table.{lookup, IsKeyed, update}
use hermes_managed_network.Table.Laws.{lookup-update}
use hermes_managed_network.Schema.{Env, Result, now, read_clock}
use hermes_managed_network.Orchestrator.{
  OrchestratorTask, Worker, Board, Adapter, TickResult, task_key, worker_key, on_store, is_ready,
  is_bridge,
}
use hermes_managed_network.Orchestrator.Tick.{swept, tick}
use hermes_managed_network.Orchestrator.Priority.{
  comes_first, next_is_ready, next_is_there, next_is_first, worker_is_bridge, worker_is_there,
}
use hermes_managed_network.Orchestrator.Outcomes.{
  Ticked, collided, no_task, no_worker, gave_up, will_retry, leases, tick-Ticked, dispatched_of,
  leased_row,
}
use hermes_managed_network.Orchestrator.Sweep.{swept-IsKeyed, workers-swept}

-- why a task was dispatched, and what of it is stored: `b` is the board before the choice, `b'` after
pub record Choice (adapter : Adapter) (at : ℕ) (t w : String) (b b' : Board) : Type 0 where
  pub task : OrchestratorTask
  pub worker : Worker
  pub there : lookup task_key t b.tasks ≡ some task
  pub ready : is_ready task ≡ true
  pub first :
      (id : String) (u : OrchestratorTask)
      → lookup task_key id b.tasks ≡ some u
      → is_ready u ≡ true
      → comes_first task u ≡ true
  pub online : lookup worker_key w b.workers ≡ some worker
  pub bridge : is_bridge worker ≡ true
  pub accepted : adapter task worker ≡ none
  pub stored : lookup task_key t b'.tasks ≡ some (leased_row at task)

module _ (env : Env) (b0 : Board) (at : ℕ) (adapter : Adapter) (max_retries : ℕ) (b : Board)
    (tasks_keyed : IsKeyed task_key b.tasks) (workers_keyed : IsKeyed worker_key b.workers) where
  lookup-leased :
      (task : OrchestratorTask)
      → lookup task_key task.task_id b.tasks ≡ some task
      → lookup task_key task.task_id
          (update (λ t. t.task_id == task.task_id) (leased_row at) b.tasks)
        ≡ some (leased_row at task)
  lookup-leased task there =
      lookup-update task_key task.task_id (λ t. t.task_id == task.task_id) (leased_row at)
        (λ _. refl) b.tasks
      ∙ rw (there, eq_refl)

  Choice-of :
      (r : Board × Result TickResult) (t w : String)
      → Ticked env b0 at adapter max_retries b r
      → dispatched_of r.1 ≡ (t, w) ∷ []
      → Choice adapter at t w b r.0
  Choice-of r t w (collided e k) h = cc (ap dispatched_of k)
  Choice-of r t w (no_task next p k) h = cc (ap (λ x. dispatched_of x.1) k)
  Choice-of r t w (no_worker task reason next p q k) h = cc (ap (λ x. dispatched_of x.1) k)
  Choice-of r t w (gave_up task worker error p q e m x next k) h = cc (ap dispatched_of k)
  Choice-of r t w (will_retry task worker error p q e m x next k) h = cc (ap dispatched_of k)
  Choice-of r t w (leases task worker p q e x k) h =
      let both : (task.task_id, worker.worker_id) ∷ [] ≡ (t, w) ∷ [] =
        sym (ap dispatched_of k) ∙ h in
      let same_task : task.task_id ≡ t = cc both in
      let same_worker : worker.worker_id ≡ w = cc both in
      let there = next_is_there b task p tasks_keyed in
      rw (sym same_task, sym same_worker)
        (record {
          task = task;
          worker = worker;
          there = there;
          ready = next_is_ready b task p;
          first = next_is_first b task p;
          online = worker_is_there b worker q workers_keyed;
          bridge = worker_is_bridge b worker q;
          accepted = e;
          stored = ap (λ y. lookup task_key task.task_id y.0) x ∙ lookup-leased task there;
        })

module _ (env : Env) where
  -- Where the ids of the tasks and of the workers are unique, a task that a tick dispatches was, once
  -- the leases that timed out were given back, queued and of low risk, of the highest priority among
  -- those and the oldest of that priority; its worker is online on the bridge; the adapter took them;
  -- and the task is stored as leased.
  pub tick_dispatches :
      (b : Board) (adapter : Adapter) (max_retries timeout : ℕ) (t w : String)
      → IsKeyed task_key b.tasks
      → IsKeyed worker_key b.workers
      → dispatched_of (tick env b adapter max_retries timeout).1 ≡ (t, w) ∷ []
      → Choice adapter
          (now env b.store)
          t
          w
          (swept env b timeout)
          (tick env b adapter max_retries timeout).0
  tick_dispatches b adapter max_retries timeout t w tasks_keyed workers_keyed =
      Choice-of env (on_store b read_clock) (now env b.store) adapter max_retries
        (swept env b timeout) (swept-IsKeyed env b timeout tasks_keyed)
        (subst (IsKeyed worker_key) (sym (workers-swept env b timeout)) workers_keyed)
        (tick env b adapter max_retries timeout) t w (tick-Ticked env b adapter max_retries timeout)
