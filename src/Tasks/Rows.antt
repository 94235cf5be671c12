-- ===== src/Tasks/Rows.antt =====
-- The row under a task id before and after each operation of the queue.
use mathlib.Core.Option
use hermes_managed_network.Prelude.{
  ℕ, ◌+◌, ◌*◌, String, ◌≡◌, refl, ap, ◌∙◌, Bool, true, false, Option, none, some, List, [], ◌∷◌,
  map, ◌&&◌, ◌==◌, arith, eq_iff, eq→path, eq_refl, ◌⊎◌, Bool-cases, inl, inr, if◌then◌else◌,
}
use hermes_managed_network.Json.{ℤ}
use hermes_managed_network.Table.{lookup, update_each, contains}
use hermes_managed_network.Table.Laws.{rowcount-suc, lookup-update_key, lookup-upsert}
use hermes_managed_network.Table.Keyed.{lookup-update_each}
use hermes_managed_network.Schema.{Task, Store, Env, now}
use hermes_managed_network.Tasks.{
  task_key, load_task, claimed, lease_expired, completed, claim_row, expire_row, expire_rows,
  complete_found, create_task, new_task_id, pending_task, second,
}

abbrev pub is_running : Task → Bool
is_running t = t.status == "running"

-- the row after a result was reported for it
unfoldable pub finished : ℕ → ℤ → String → String → Option Task → Option Task
finished at exit_code stdout stderr none = none
finished at exit_code stdout stderr (some t) =
    if is_running t then some (completed at exit_code stdout stderr t) else none

unfoldable pub or_same : Option Task → Option Task → Option Task
or_same none old = old
or_same (some t) old = some t

module _ (env : Env) where
  -- The rows of a sweep are updated one by one, as by a batch.
  pub tasks-expire_rows :
      (at : ℕ) (rows : List Task) (s : Store)
      → (expire_rows env at rows s).tasks
        ≡ update_each task_key is_running (lease_expired at) (map task_key rows) s.tasks
  unfolding expire_rows expire_row update_each
  tasks-expire_rows at [] s = refl
  tasks-expire_rows at (row ∷ rows) s = tasks-expire_rows at rows (expire_row env at s row)

  pub load-expire_rows :
      (at : ℕ) (rows : List Task) (s : Store) (id : String)
      → load_task (expire_rows env at rows s) id
        ≡ Option.map
            (λ t. if contains (map task_key rows) id && is_running t then lease_expired at t else t)
            (load_task s id)
  unfolding load_task
  load-expire_rows at rows s id =
      ap (λ l. lookup task_key id l) (tasks-expire_rows at rows s)
      ∙ lookup-update_each task_key id is_running (lease_expired at) (λ _. refl) (λ _. refl)
          (map task_key rows) s.tasks

  pub load-claim_row :
      (s : Store) (node_id executor : String) (lease at : ℕ) (row : Task) (id : String)
      → load_task (claim_row env s node_id executor lease at row).0 id ≡ (
          if row.task_id == id
          then Option.map
              (λ t. if t.status == "pending" then claimed at (at + lease * second) t else t)
              (load_task s id)
          else load_task s id)
  unfolding load_task claim_row
  load-claim_row s node_id executor lease at row id =
      lookup-update_key task_key id row.task_id (λ t. t.status == "pending")
        (claimed at (at + lease * second)) (λ _. refl) s.tasks

  pub load-create_task :
      (s : Store) (node_id command risk created_by executor id : String)
      → load_task (create_task env s node_id command risk created_by executor).0 id ≡ (
          if new_task_id env s == id
          then some (
              pending_task (new_task_id env s) node_id command risk created_by (now env s) executor)
          else load_task s id)
  unfolding load_task create_task
  load-create_task s node_id command risk created_by executor id =
      lookup-upsert task_key id
        (pending_task (new_task_id env s) node_id command risk created_by (now env s) executor)
        s.tasks

  complete_elsewhere :
      (s : Store) (task_id w : String) (at : ℕ) (code : ℤ) (out err : String) (row : Task)
      → lookup task_key task_id s.tasks ≡ some row
      → is_running row ≡ true
      → ((task_id == w) ≡ true) ⊎ ((task_id == w) ≡ false)
      → (if task_id == w
          then Option.map
              (λ x. if is_running x then completed at code out err x else x)
              (lookup task_key w s.tasks)
          else lookup task_key w s.tasks)
        ≡ (if task_id == w then some (completed at code out err row) else lookup task_key w s.tasks)
  complete_elsewhere s task_id w at code out err row there running (inl e) =
      rw (e, ← eq→path task_id w e, there, running)
  complete_elsewhere s task_id w at code out err row there running (inr e) = rw e

  complete_running :
      (s : Store) (task_id w : String) (at : ℕ) (code : ℤ) (out err : String) (row : Task)
      → load_task s task_id ≡ some row
      → is_running row ≡ true
      → ((complete_found env s task_id at code out err (some row)).1
          ≡ some (completed at code out err row))
        × (load_task (complete_found env s task_id at code out err (some row)).0 w
            ≡ (if task_id == w then some (completed at code out err row) else load_task s w))
  unfolding complete_found load_task
  complete_running s task_id w at code out err row there running =
      let (n, e) = rowcount-suc task_key task_id is_running s.tasks row there running in
      let here = λ (k : String).
        lookup-update_key task_key k task_id is_running (completed at code out err) (λ _. refl)
          s.tasks in
      rw (running, e)
        (
          here task_id ∙ rw (eq_refl, there, running),
          here w
              ∙ complete_elsewhere s task_id w at code out err row there running
                  (Bool-cases (task_id == w)),
        )

  -- what a report answers and leaves under each id
  pub complete_found_outcome :
      (s : Store) (task_id w : String) (at : ℕ) (code : ℤ) (out err : String) (o : Option Task)
      → load_task s task_id ≡ o
      → ((complete_found env s task_id at code out err o).1 ≡ finished at code out err o)
        × (load_task (complete_found env s task_id at code out err o).0 w
            ≡ (if task_id == w then or_same (finished at code out err o) o else load_task s w))
  unfolding finished or_same
  complete_found_outcome s task_id w at code out err none there =
      unfold complete_found load_task in (refl, ground (arith, eq_iff task_id w))
  complete_found_outcome s task_id w at code out err (some row) there =
      elim (Bool-cases (is_running row)) [
        | inl e ↦ rw e (complete_running s task_id w at code out err row there e)
        | inr e ↦ unfold complete_found load_task in rw e (refl, ground (arith, eq_iff task_id w))
      ]
