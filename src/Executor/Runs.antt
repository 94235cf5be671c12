-- ===== src/Executor/Runs.antt =====
-- What a run of a task over SSH leaves behind.
use mathlib.Core.Option.{some-injective}
use hermes_managed_network.Prelude.{
  ℕ, ◌+◌, String, ◌≡◌, sym, ap, ◌∙◌, false, Option, none, some, List, eq_refl, Bool-cases, inl, inr,
  if◌then◌else◌,
}
use hermes_managed_network.Json.{ℤ, is_zero}
use hermes_managed_network.Table.Laws.{lookup-upsert, key-lookup}
use hermes_managed_network.Schema.{
  Task, Store, Env, ok, raised, timeout_expired, ssh_execution_error, now, read_clock,
}
use hermes_managed_network.Audit.{record_audit, insert_audit_event}
use hermes_managed_network.Tasks.{task_key, load_task, save_task, complete_task, completed}
use hermes_managed_network.Tasks.Rows.{finished, or_same}
use hermes_managed_network.Tasks.Report.{complete_task_outcome}
use hermes_managed_network.Tasks.Watchdog.{stuck_at}
use hermes_managed_network.Executor.{
  Completed, SshTarget, Shell, started, details_of, finish, report_ssh, after_command, ssh_command,
  execute_ssh, run_ssh_task,
}
use hermes_managed_network.Executor.Checks.{MayRun, ssh_checks_pass}

module _ (env : Env) where
  load_started : (s : Store) (t : Task) → load_task (save_task s t) t.task_id ≡ some t
  unfolding load_task save_task
  load_started s t = lookup-upsert task_key t.task_id t s.tasks ∙ rw eq_refl

  module _ (shell : Shell) (s : Store) (task_id : String) (allow_risk : List String) (task : Task)
      (target : SshTarget) (may : MayRun env s allow_risk (load_task s task_id) task target) where
    -- the task while the command runs, and the store then
    abbrev running : Task
    running = started (now env s) task

    abbrev before : Store
    before = save_task (read_clock s) running

    own_id : task.task_id ≡ task_id
    unfolding load_task
    own_id = key-lookup task_key task_id s.tasks task may.there

    run_after_checks :
        run_ssh_task env shell s task_id allow_risk
        ≡ after_command env shell before running target (shell.run (ssh_command env running target))
    unfolding run_ssh_task execute_ssh
    run_after_checks = rw (ssh_checks_pass env s allow_risk (load_task s task_id) task target may)

    finish_of :
        (c : Completed) (done : Task) (r : Store × Option Task)
        → r.1 ≡ some done
        → finish env c r
          ≡ (r.0, if is_zero c.returncode then ok done else raised ssh_execution_error)
    unfolding finish
    finish_of c done (s', none) e = cc
    finish_of c done (s', some t) e = elim (Bool-cases (is_zero c.returncode)) [
      | inl z ↦ rw z (ap (λ x. (s', ok x)) (some-injective t done e))
      | inr z ↦ rw z
    ]

    module _ (c : Completed) (port : ℤ) (ends : shell.run (ssh_command env running target) ≡ some c)
        (number : shell.to_int target.port ≡ some port) where
      abbrev audited : Store
      audited =
          record_audit env before "task" "task" task.task_id "ssh_execute"
            (if is_zero c.returncode then "ok" else "failed")
            (details_of env shell running target c port)

      abbrev answer : Store × Option Task
      answer = complete_task env audited task.task_id c.returncode c.out c.err

      abbrev done : Task
      done = completed (env.now (s.reads + 1 + 1)) c.returncode c.out c.err running

      run_finishes : run_ssh_task env shell s task_id allow_risk ≡ finish env c answer
      unfolding after_command report_ssh
      run_finishes = run_after_checks ∙ rw (ends, number)

      load_audited : load_task audited task.task_id ≡ some running
      unfolding record_audit insert_audit_event load_task
      load_audited = load_started (read_clock s) running

      finished-audited :
          finished (now env audited) c.returncode c.out c.err (load_task audited task.task_id)
          ≡ some done
      unfolding finished record_audit insert_audit_event save_task
      finished-audited = rw load_audited

      returned : answer.1 ≡ some done
      returned =
          (complete_task_outcome env audited task.task_id task.task_id c.returncode c.out c.err).0
          ∙ finished-audited

      stored : load_task answer.0 task.task_id ≡ some done
      unfolding or_same
      stored =
          (complete_task_outcome env audited task.task_id task.task_id c.returncode c.out c.err).1
          ∙ rw (eq_refl, finished-audited)

  -- For a task that may run over SSH, whatever its status is: if the command ends and the port is
  -- a number, the task is stored with the result of the command, as succeeded if the exit code is
  -- 0, and then returned, and as failed if not, and then SSHExecutionError is raised.
  pub run_ssh_task_stores :
      (shell : Shell) (s : Store) (task_id : String) (allow_risk : List String) (task : Task)
      (target : SshTarget) (c : Completed) (port : ℤ)
      → MayRun env s allow_risk (load_task s task_id) task target
      → shell.run (ssh_command env (started (now env s) task) target) ≡ some c
      → shell.to_int target.port ≡ some port
      → let done =
          completed
            (env.now (s.reads + 1 + 1))
            c.returncode
            c.out
            c.err
            (started (now env s) task) in
        let r = run_ssh_task env shell s task_id allow_risk in
        (load_task r.0 task_id ≡ some done)
        × (r.1 ≡ (if is_zero c.returncode then ok done else raised ssh_execution_error))
  run_ssh_task_stores shell s task_id allow_risk task target c port may ends number =
      let fin =
        run_finishes shell s task_id allow_risk task target may c port ends number
        ∙ finish_of shell s task_id allow_risk task target may c
            (completed (env.now (s.reads + 1 + 1)) c.returncode c.out c.err
              (started (now env s) task))
            (answer shell s task_id allow_risk task target may c port ends number)
            (returned shell s task_id allow_risk task target may c port ends number) in
      (
        ap (λ r. load_task r.0 task_id) fin
            ∙ ap
                (λ k.
                  load_task (answer shell s task_id allow_risk task target may c port ends number).0
                    k)
                (sym (own_id shell s task_id allow_risk task target may))
            ∙ stored shell s task_id allow_risk task target may c port ends number,
        ap (λ r. r.1) fin,
      )

  not_stuck :
      (at older_than at' : ℕ) (t : Task)
      → t.executor ≡ "ssh"
      → stuck_at at older_than (some (started at' t)) ≡ false
  unfolding stuck_at
  not_stuck at older_than at' t e = rw e

  -- For a task that may run over SSH: if the call of the command raises, as it does when the time
  -- is over, the task is left running, and the test by which the watchdog finds stuck tasks fails
  -- for it at all times.
  pub run_ssh_task_timeout :
      (shell : Shell) (s : Store) (task_id : String) (allow_risk : List String) (task : Task)
      (target : SshTarget) (at older_than : ℕ)
      → MayRun env s allow_risk (load_task s task_id) task target
      → shell.run (ssh_command env (started (now env s) task) target) ≡ none
      → let r = run_ssh_task env shell s task_id allow_risk in
        (r.1 ≡ raised timeout_expired)
        × (load_task r.0 task_id ≡ some (started (now env s) task))
        × (stuck_at at older_than (load_task r.0 task_id) ≡ false)
  run_ssh_task_timeout shell s task_id allow_risk task target at older_than may ends =
      let over : run_ssh_task env shell s task_id allow_risk
          ≡ (save_task (read_clock s) (started (now env s) task), raised timeout_expired) =
        run_after_checks shell s task_id allow_risk task target may
        ∙ unfold after_command in rw ends in
      let there =
        ap (λ r. load_task r.0 task_id) over
        ∙ ap (λ k. load_task (save_task (read_clock s) (started (now env s) task)) k)
            (sym (own_id shell s task_id allow_risk task target may))
        ∙ load_started (read_clock s) (started (now env s) task) in
      (
        ap (λ r. r.1) over,
        there,
        ap (λ o. stuck_at at older_than o) there
            ∙ not_stuck at older_than (now env s) task may.executor,
      )
