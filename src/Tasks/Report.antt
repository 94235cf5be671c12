-- ===== src/Tasks/Report.antt =====
-- Reporting the result of a task.
use hermes_managed_network.Prelude.{
  ℕ, String, ◌≡◌, refl, ◌∙◌, false, Option, none, some, ◌==◌, eq_refl, Bool-cases, inl, inr,
  if◌then◌else◌,
}
use hermes_managed_network.Json.{ℤ, is_zero}
use hermes_managed_network.Schema.{Task, Store, Env, now, read_clock}
use hermes_managed_network.Tasks.{load_task, result_status, complete_task}
use hermes_managed_network.Tasks.Rows.{is_running, finished, or_same, complete_found_outcome}

module _ (env : Env) where
  -- A result is accepted exactly for a task that is running. The task is then stored as succeeded if
  -- the exit code is 0 and as failed if not, with the exit code and the capped outputs, and returned
  -- so; no other task changes. For a task that is missing or not running no task changes.
  pub complete_task_outcome :
      (s : Store) (task_id w : String) (code : ℤ) (out err : String)
      → ((complete_task env s task_id code out err).1
          ≡ finished (now env s) code out err (load_task s task_id))
        × (load_task (complete_task env s task_id code out err).0 w ≡ (
            if task_id == w
            then or_same
                (finished (now env s) code out err (load_task s task_id))
                (load_task s task_id)
            else load_task s w))
  unfolding complete_task load_task
  complete_task_outcome s task_id w code out err =
      complete_found_outcome env (read_clock s) task_id w (now env s) code out err
        (load_task s task_id) refl

  ended : (code : ℤ) → (result_status code == "running") ≡ false
  ended code = elim (Bool-cases (is_zero code)) [ inl e ↦ rw e | inr e ↦ rw e ]

  not_running :
      (at at' : ℕ) (code code' : ℤ) (out err out' err' : String) (o : Option Task)
      → finished at' code' out' err' (or_same (finished at code out err o) o) ≡ none
  unfolding finished or_same
  not_running at at' code code' out err out' err' none = refl
  not_running at at' code code' out err out' err' (some t) = elim (Bool-cases (is_running t)) [
    | inl e ↦ rw (e, ended code)
    | inr e ↦ rw (e, e)
  ]

  -- A second result for a task is refused, whatever the first one was and whether or not it was
  -- accepted.
  pub complete_task_once :
      (s : Store) (task_id : String) (code code' : ℤ) (out err out' err' : String)
      → (complete_task env (complete_task env s task_id code out err).0 task_id code' out' err').1
        ≡ none
  complete_task_once s task_id code code' out err out' err' =
      let s' = (complete_task env s task_id code out err).0 in
      (complete_task_outcome s' task_id task_id code' out' err').0
      ∙ rw ((complete_task_outcome s task_id task_id code out err).1, eq_refl)
          (not_running (now env s) (now env s') code code' out err out' err' (load_task s task_id))
