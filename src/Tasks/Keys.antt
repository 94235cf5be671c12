-- ===== src/Tasks/Keys.antt =====
-- The ids of the table tasks under the operations of the queue.
use hermes_managed_network.Prelude.{
  ℕ, ◌+◌, ◌*◌, String, refl, sym, Bool, Option, none, some, ◌==◌, ◌&&◌, map, Bool-cases,
  Option-cases, inl, inr,
}
use mathlib.Core.Path.{subst}
use hermes_managed_network.Json.{ℤ}
use hermes_managed_network.Table.{IsKeyed, rowcount}
use hermes_managed_network.Table.Keyed.{update-IsKeyed, upsert-IsKeyed, update_each-IsKeyed}
use hermes_managed_network.Schema.{Task, Store, Env, now, read_clock}
use hermes_managed_network.Nodes.{load_node, is_managed}
use hermes_managed_network.Tasks.{
  task_key, load_task, pending_task, claimed, lease_expired, completed, new_task_id, next_waiting,
  second, create_task, claim_next_task, expire_stuck_tasks_at, stuck_rows, complete_found,
  complete_task, is_none,
}
use hermes_managed_network.Tasks.Rows.{is_running, tasks-expire_rows}
use hermes_managed_network.Tasks.Lifecycle.{Step, Reach}

module _ (env : Env) where
  claim_found_IsKeyed :
      (s : Store) (node_id executor : String) (lease : ℕ)
      → IsKeyed task_key s.tasks
      → IsKeyed task_key (claim_next_task env s node_id executor lease).0.tasks
  unfolding claim_next_task next_waiting load_node
  claim_found_IsKeyed s node_id executor lease k =
      elim (Bool-cases (is_managed (load_node s node_id))) [
        | inl managed ↦ elim (Option-cases (next_waiting env s node_id executor)) [
          | inl nothing ↦ rw (managed, nothing) k
          | inr (row, found) ↦
              rw (managed, found)
                (update-IsKeyed task_key (λ t. t.task_id == row.task_id && t.status == "pending")
                  (claimed (now env s) (now env s + lease * second)) (λ _. refl) s.tasks k)
        ]
        | inr unmanaged ↦ rw unmanaged k
      ]

  complete_found-IsKeyed :
      (s : Store) (task_id : String) (at : ℕ) (code : ℤ) (out err : String) (o : Option Task)
      → IsKeyed task_key s.tasks
      → IsKeyed task_key (complete_found env s task_id at code out err o).0.tasks
  unfolding complete_found
  complete_found-IsKeyed s task_id at code out err none k = k
  complete_found-IsKeyed s task_id at code out err (some row) k =
      elim (Bool-cases (is_running row)) [
        | inl e ↦ elim (Bool-cases (is_none (rowcount here s.tasks))) [
          | inl n ↦ rw (e, n) k
          | inr n ↦
              rw (e, n)
                (update-IsKeyed task_key here (completed at code out err) (λ _. refl) s.tasks k)
        ]
        | inr e ↦ rw e k
      ]
    where
      here : Task → Bool
      here t = t.task_id == task_id && is_running t

  pub Step-IsKeyed :
      {s s' : Store} → Step env s s' → IsKeyed task_key s.tasks → IsKeyed task_key s'.tasks
  Step-IsKeyed (Step.create s node_id command risk created_by executor free) k =
      unfold create_task in
      upsert-IsKeyed task_key
        (pending_task (new_task_id env s) node_id command risk created_by (now env s) executor)
        s.tasks k
  Step-IsKeyed (Step.claim s node_id executor lease) k =
      claim_found_IsKeyed s node_id executor lease k
  Step-IsKeyed (Step.expire s at older) k =
      unfold expire_stuck_tasks_at in
      subst (λ l. IsKeyed task_key l)
        (sym (tasks-expire_rows env at (stuck_rows env at (older * second) s) s))
        (update_each-IsKeyed task_key is_running (lease_expired at) (λ _. refl)
          (map task_key (stuck_rows env at (older * second) s)) s.tasks k)
  Step-IsKeyed (Step.complete s task_id code out err) k =
      unfold complete_task in
      complete_found-IsKeyed (read_clock s) task_id (now env s) code out err (load_task s task_id) k

  -- Task ids that are unique stay so, by any sequence of creations with an id that is free,
  -- claims, sweeps and results.
  pub Reach-IsKeyed :
      {s s' : Store} → Reach env s s' → IsKeyed task_key s.tasks → IsKeyed task_key s'.tasks
  Reach-IsKeyed Reach.here k = k
  Reach-IsKeyed (Reach.next r step) k = Step-IsKeyed step (Reach-IsKeyed r k)
