-- ===== src/Orchestrator/Outcomes.antt =====
-- The ways in which a tick ends.
use Prim.Native.String.{◌++◌ as join}
use hermes_managed_network.Prelude.{
  ℕ, suc, String, ◌≡◌, refl, sym, ap, ◌∙◌, true, false, Option, none, some, List, [], ◌∷◌, ◌++◌,
  ◌==◌, leb, inl, inr, Bool-cases,
}
use hermes_managed_network.Table.{update, insert}
use hermes_managed_network.Table.Laws.{insert-eq-some}
use hermes_managed_network.Schema.{Env, Result, ok, raised, integrity_error, now, read_clock}
use hermes_managed_network.Audit.{record_audit, insert_audit_event}
use hermes_managed_network.Json.{Fields}
use hermes_managed_network.Orchestrator.{
  OrchestratorTask, Worker, Assignment, Report, Board, Adapter, TickResult, assignment_key,
  report_key, on_store, next_ready, next_worker, audit,
}
use hermes_managed_network.Orchestrator.Tick.{
  Open, still_open, broken_off, with_reports, add_report, with_assignments, add_assignment,
  new_assignment, committed, paused, idle, blocked_on, leased_result, pause_summary, retried,
  leased_report, lease, after_dispatch, with_worker, with_task, swept, tick,
}

-- the tables but for the reports
abbrev pub tables : Board → List OrchestratorTask × List Worker × List Assignment
tables b = (b.tasks, b.workers, b.assignments)

-- what a tick says it dispatched
abbrev pub dispatched_of : Result TickResult → List (String × String)
dispatched_of (raised e) = []
dispatched_of (ok r) = r.dispatched

abbrev Tables : Type 0
Tables = List OrchestratorTask × List Worker × List Assignment

abbrev pub leased_row : ℕ → OrchestratorTask → OrchestratorTask
leased_row at t = record t { status = "leased"; updated_at = at }

abbrev pub paused_row : ℕ → ℕ → OrchestratorTask → OrchestratorTask
paused_row attempts at t = record t { status = "paused"; attempts = attempts; updated_at = at }

abbrev pub retried_row : ℕ → ℕ → OrchestratorTask → OrchestratorTask
retried_row attempts at t = record t { attempts = attempts; updated_at = at }

-- the tables with an UPDATE of one task
abbrev pub with_row : OrchestratorTask → (OrchestratorTask → OrchestratorTask) → Board → Tables
with_row task f b = (update (λ t. t.task_id == task.task_id) f b.tasks, b.workers, b.assignments)

-- the tables with a lease
abbrev pub with_lease : Env → Board → OrchestratorTask → Worker → ℕ → Board → Tables
with_lease env b0 task worker at b = (
  update (λ t. t.task_id == task.task_id) (leased_row at) b.tasks,
  b.workers,
  b.assignments ++ new_assignment env b0 at b task worker ∷ [],
)

tables-audit :
    (env : Env) (subject action outcome : String) (d : Fields) (b : Board)
    → tables (audit env subject action outcome d b) ≡ tables b
unfolding audit record_audit insert_audit_event
tables-audit env subject action outcome d b = refl

module _ (env : Env) (b0 : Board) (at : ℕ) where
  -- an insert breaks the transaction off, or leaves these tables
  pub data Inserted (x : Tables) (o : Open) : Type 0 where
    breaks : (b : Board) → o ≡ broken_off b → tables b ≡ tables b0 → Inserted x o
    adds : (b : Board) → o ≡ still_open b → tables b ≡ x → Inserted x o

  of_reports :
      (b : Board) (o : Option (List Report)) → Inserted (tables b) (with_reports env b0 at b o)
  unfolding with_reports
  of_reports b none = breaks _ refl refl
  of_reports b (some rows) = adds _ refl refl

  of_add_report : (b : Board) (r : Report) → Inserted (tables b) (add_report env b0 at b r)
  unfolding add_report
  of_add_report b r = of_reports b (insert report_key r b.reports)

  of_assignments :
      (b : Board) (a : Assignment) (o : Option (List Assignment))
      → insert assignment_key a b.assignments ≡ o
      → Inserted (b.tasks, b.workers, b.assignments ++ a ∷ []) (with_assignments env b0 at b o)
  unfolding with_assignments
  of_assignments b a none e = breaks _ refl refl
  of_assignments b a (some rows) e =
      adds _ refl (
        ap (λ l. (b.tasks, b.workers, l))
          ((insert-eq-some assignment_key a b.assignments rows e).1))

  of_leased_report :
      (task : OrchestratorTask) (worker : Worker) (x : Tables) (o : Open)
      → Inserted x o
      → Inserted x (leased_report env b0 at task worker o)
  unfolding leased_report
  of_leased_report task worker x o (breaks b e t) = rw e (breaks b refl t)
  of_leased_report task worker x o (adds b e t) = rw (e, sym t) (of_add_report b _)

  -- how a transaction ends, from the tables that it would leave
  pub data Ended (x : Tables) (result : TickResult) (r : Board × Result TickResult) : Type 0 where
    broke : tables r.0 ≡ tables b0 → r.1 ≡ raised integrity_error → Ended x result r
    done : tables r.0 ≡ x → r.1 ≡ ok result → Ended x result r

  of_committed :
      (log : Board → Board) (result : TickResult) (x : Tables) (o : Open)
      → ((b : Board) → tables (log b) ≡ tables b)
      → Inserted x o
      → Ended x result (committed env b0 at log result o)
  unfolding committed
  of_committed log result x o keep (breaks b e t) = rw e (broke t refl)
  of_committed log result x o keep (adds b e t) = rw e (done (keep b ∙ t) refl)

  of_paused :
      (b : Board) (task : OrchestratorTask) (worker : Worker) (max_retries attempts : ℕ)
      (error : String)
      → Ended
          (with_row task (paused_row attempts at) b)
          (blocked_on task (pause_summary env b0 at max_retries) none "等待主控检查 worker/bridge 状态")
          (paused env b0 at b task worker max_retries attempts error)
  unfolding paused
  of_paused b task worker max_retries attempts error =
      of_committed _ _ _ _ (tables-audit env _ _ _ _) (of_add_report _ _)

  of_retried :
      (b : Board) (task : OrchestratorTask) (worker : Worker) (attempts : ℕ) (error : String)
      → Ended
          (with_row task (retried_row attempts at) b)
          (blocked_on task (join "bridge dispatch failed: " error) (some attempts) "等待下一轮重试")
          (retried env b0 at b task worker attempts error)
  unfolding retried
  of_retried b task worker attempts error =
      of_committed _ _ _ _ (tables-audit env _ _ _ _) (of_add_report _ _)

  of_lease :
      (b : Board) (task : OrchestratorTask) (worker : Worker)
      → Ended
          (with_lease env b0 task worker at b)
          (leased_result task worker)
          (lease env b0 at b task worker)
  unfolding lease add_assignment
  of_lease b task worker =
      of_committed _ _ _ _ (tables-audit env _ _ _ _)
        (of_leased_report task worker _ _ (of_assignments _ _ _ refl))

  -- how a tick ends, where `b` is the board after the sweep
  pub data Ticked (adapter : Adapter) (max_retries : ℕ) (b : Board) (r : Board × Result TickResult)
      : Type 0 where
    collided :
        tables r.0 ≡ tables b0 → r.1 ≡ raised integrity_error → Ticked adapter max_retries b r
    no_task :
        (next : String)
        → next_ready b ≡ none
        → r ≡ (b, ok (idle next))
        → Ticked adapter max_retries b r
    no_worker :
        (task : OrchestratorTask) (reason next : String)
        → next_ready b ≡ some task
        → next_worker b ≡ none
        → r ≡ (b, ok (blocked_on task reason none next))
        → Ticked adapter max_retries b r
    gave_up :
        (task : OrchestratorTask) (worker : Worker) (error : String)
        → next_ready b ≡ some task
        → next_worker b ≡ some worker
        → adapter task worker ≡ some error
        → leb max_retries (suc task.attempts) ≡ true
        → tables r.0 ≡ with_row task (paused_row (suc task.attempts) at) b
        → (next : String)
        → r.1 ≡ ok (blocked_on task (pause_summary env b0 at max_retries) none next)
        → Ticked adapter max_retries b r
    will_retry :
        (task : OrchestratorTask) (worker : Worker) (error : String)
        → next_ready b ≡ some task
        → next_worker b ≡ some worker
        → adapter task worker ≡ some error
        → leb max_retries (suc task.attempts) ≡ false
        → tables r.0 ≡ with_row task (retried_row (suc task.attempts) at) b
        → (next : String)
        → r.1
          ≡ ok (
              blocked_on task
                (join "bridge dispatch failed: " error)
                (some (suc task.attempts))
                next)
        → Ticked adapter max_retries b r
    leases :
        (task : OrchestratorTask) (worker : Worker)
        → next_ready b ≡ some task
        → next_worker b ≡ some worker
        → adapter task worker ≡ none
        → tables r.0 ≡ with_lease env b0 task worker at b
        → r.1 ≡ ok (leased_result task worker)
        → Ticked adapter max_retries b r

  module _ (adapter : Adapter) (max_retries : ℕ) (b : Board) where
    of_dispatch :
        (task : OrchestratorTask) (worker : Worker)
        → next_ready b ≡ some task
        → next_worker b ≡ some worker
        → (o : Option String) → adapter task worker ≡ o
        → Ticked adapter max_retries b (after_dispatch env b0 at b task worker max_retries o)
    unfolding after_dispatch
    of_dispatch task worker p q none e = elim (of_lease b task worker) [
      | broke t k ↦ collided t k
      | done t k ↦ leases task worker p q e t k
    ]
    of_dispatch task worker p q (some error) e =
        elim (Bool-cases (leb max_retries (suc task.attempts))) [
          | inl m ↦ rw m (elim (of_paused b task worker max_retries (suc task.attempts) error) [
            | broke t k ↦ collided t k
            | done t k ↦ gave_up task worker error p q e m t _ k
          ])
          | inr m ↦ rw m (elim (of_retried b task worker (suc task.attempts) error) [
            | broke t k ↦ collided t k
            | done t k ↦ will_retry task worker error p q e m t _ k
          ])
        ]

    of_worker :
        (task : OrchestratorTask)
        → next_ready b ≡ some task
        → (o : Option Worker) → next_worker b ≡ o
        → Ticked adapter max_retries b (with_worker env b0 at adapter max_retries b task o)
    unfolding with_worker
    of_worker task p none q = no_worker task _ _ p q refl
    of_worker task p (some worker) q = of_dispatch task worker p q (adapter task worker) refl

    of_task :
        (o : Option OrchestratorTask)
        → next_ready b ≡ o
        → Ticked adapter max_retries b (with_task env b0 at adapter max_retries b o)
    unfolding with_task
    of_task none p = no_task _ p refl
    of_task (some task) p = of_worker task p (next_worker b) refl

module _ (env : Env) where
  -- A tick ends in one of these ways, on the board after the sweep of the leases that timed out: an id
  -- that is taken rolls it back to the tables before it; without a ready task or without an online
  -- bridge worker it stays at that board; if the adapter raises, the attempts of the chosen task are
  -- counted and it is paused exactly if they reach the limit; else the task is leased to the worker.
  pub tick-Ticked :
      (b : Board) (adapter : Adapter) (max_retries timeout : ℕ)
      → Ticked env
          (on_store b read_clock)
          (now env b.store)
          adapter
          max_retries
          (swept env b timeout)
          (tick env b adapter max_retries timeout)
  unfolding tick
  tick-Ticked b adapter max_retries timeout =
      of_task env (on_store b read_clock) (now env b.store) adapter max_retries
        (swept env b timeout) (next_ready (swept env b timeout)) refl
