-- ===== src/Orchestrator/Tick.antt =====
-- tick of OrchestratorService (src/hermes_managed_network/orchestrator.py): one transaction, and the audit
-- row after its commit. A transaction that raises is rolled back.
use Prim.Native.String.{◌++◌ as join}
use hermes_managed_network.Prelude.{
  ℕ, suc, String, Option, none, some, List, [], ◌∷◌, ◌==◌, leb, if◌then◌else◌,
}
use hermes_managed_network.Json.{Fields, pos, num, string, field, end}
use hermes_managed_network.Table.{insert, update}
use hermes_managed_network.Schema.{
  Env, Result, ok, raised, integrity_error, now, str, read_clock, draw_id,
}
use hermes_managed_network.Orchestrator.{
  OrchestratorTask, Worker, Assignment, Report, Board, Adapter, TickResult, assignment_key,
  report_key, on_store, leased_rows, expire_leases, next_ready, next_worker, new_report, audit,
}

abbrev pub idle : String → TickResult
idle next = record { dispatched = []; blocked = []; next = next }

abbrev pub blocked_on : OrchestratorTask → String → Option ℕ → String → TickResult
blocked_on task reason attempt next = record {
  dispatched = [];
  blocked = record { task_id = task.task_id; reason = reason; attempt = attempt } ∷ [];
  next = next;
}

abbrev pub leased_result : OrchestratorTask → Worker → TickResult
leased_result task worker = record {
  dispatched = (task.task_id, worker.worker_id) ∷ [];
  blocked = [];
  next = "等待 worker 回报";
}

-- UPDATE orchestrator_tasks SET ... WHERE task_id = ?
abbrev pub set_task : String → (OrchestratorTask → OrchestratorTask) → Board → Board
set_task task_id f b = record b { tasks = update (λ t. t.task_id == task_id) f b.tasks }

-- A transaction before its end, or one that an INSERT of a taken key broke off: its board is then the one
-- before the transaction, but for what was drawn.
pub data Open : Type 0 where
  still_open : Board → Open
  broken_off : Board → Open

module _ (env : Env) (b0 : Board) (at : ℕ) where
  abbrev rolled_back : Board → Board
  rolled_back b = record b0 { store = draw_id b.store }

  -- INSERT INTO orchestrator_reports
  unfoldable pub with_reports : Board → Option (List Report) → Open
  with_reports b none = broken_off (rolled_back b)
  with_reports b (some reports') = still_open (record (on_store b draw_id) { reports = reports' })

  unfoldable pub add_report : Board → Report → Open
  add_report b r = with_reports b (insert report_key r b.reports)

  -- INSERT INTO orchestrator_assignments
  unfoldable pub with_assignments : Board → Option (List Assignment) → Open
  with_assignments b none = broken_off (rolled_back b)
  with_assignments b (some assignments') =
      still_open (record (on_store b draw_id) { assignments = assignments' })

  unfoldable pub add_assignment : Board → Assignment → Open
  add_assignment b a = with_assignments b (insert assignment_key a b.assignments)

  -- the end of the transaction: the commit and the audit row, or the error
  unfoldable pub committed : (Board → Board) → TickResult → Open → Board × Result TickResult
  committed log result (broken_off b) = (b, raised integrity_error)
  committed log result (still_open b) = (log b, ok result)

  -- str(n)
  abbrev decimal : ℕ → String
  decimal n = str env (num (pos n))

  abbrev pub pause_summary : ℕ → String
  pause_summary max_retries = join "连续 " (join (decimal max_retries) " 次分发失败，已暂停")

  abbrev pub failure_details : Worker → ℕ → String → Fields
  failure_details worker attempts error =
      field "worker_id" (string worker.worker_id)
        (field "attempts" (num (pos attempts)) (field "error" (string error) end))

  unfoldable pub paused :
      Board → OrchestratorTask → Worker → ℕ → ℕ → String → Board × Result TickResult
  paused b task worker max_retries attempts error =
      let b' =
        set_task task.task_id
          (λ t. record t { status = "paused"; attempts = attempts; updated_at = at }) b in
      committed
        (audit env task.task_id "tick/dispatch_failed" "paused"
          (failure_details worker attempts error))
        (blocked_on task (pause_summary max_retries) none "等待主控检查 worker/bridge 状态")
        (add_report b' (new_report env b' task.task_id "paused" (pause_summary max_retries) at))

  unfoldable pub retried :
      Board → OrchestratorTask → Worker → ℕ → String → Board × Result TickResult
  retried b task worker attempts error =
      let b' = set_task task.task_id (λ t. record t { attempts = attempts; updated_at = at }) b in
      let reason = join "bridge dispatch failed: " error in
      committed
        (audit env task.task_id "tick/dispatch_failed" "retry"
          (failure_details worker attempts error))
        (blocked_on task reason (some attempts) "等待下一轮重试")
        (add_report b' (new_report env b' task.task_id "retry" reason at))

  -- the insert of the report, after that of the assignment
  unfoldable pub leased_report : OrchestratorTask → Worker → Open → Open
  leased_report task worker (broken_off b) = broken_off b
  leased_report task worker (still_open b) =
      add_report b (new_report env b task.task_id "leased" (join "已分发给 " worker.worker_id) at)

  abbrev pub new_assignment : Board → OrchestratorTask → Worker → Assignment
  new_assignment b task worker = record {
    assignment_id = join "orch_asg_" (env.hex12 b.store.draws);
    task_id = task.task_id;
    worker_id = worker.worker_id;
    status = "leased";
    leased_at = at;
    updated_at = at;
  }

  unfoldable pub lease : Board → OrchestratorTask → Worker → Board × Result TickResult
  lease b task worker =
      let b' = set_task task.task_id (λ t. record t { status = "leased"; updated_at = at }) b in
      committed
        (audit env task.task_id "tick/lease" "leased"
          (field "worker_id" (string worker.worker_id) end))
        (leased_result task worker)
        (leased_report task worker (add_assignment b' (new_assignment b' task worker)))

  -- what follows the call of the adapter
  unfoldable pub after_dispatch :
      Board → OrchestratorTask → Worker → ℕ → Option String → Board × Result TickResult
  after_dispatch b task worker max_retries none = lease b task worker
  after_dispatch b task worker max_retries (some error) =
      if leb max_retries (suc task.attempts)
      then paused b task worker max_retries (suc task.attempts) error
      else retried b task worker (suc task.attempts) error

  unfoldable pub with_worker :
      Adapter → ℕ → Board → OrchestratorTask → Option Worker → Board × Result TickResult
  with_worker adapter max_retries b task none =
      (b, ok (blocked_on task "暂无 online bridge worker" none "等待 worker 上线后重试"))
  with_worker adapter max_retries b task (some worker) =
      after_dispatch b task worker max_retries (adapter task worker)

  unfoldable pub with_task :
      Adapter → ℕ → Board → Option OrchestratorTask → Board × Result TickResult
  with_task adapter max_retries b none = (b, ok (idle "暂无低风险可分发任务"))
  with_task adapter max_retries b (some task) =
      with_worker adapter max_retries b task (next_worker b)

module _ (env : Env) where
  -- the board whose leases that timed out are given back
  abbrev pub swept : Board → ℕ → Board
  swept b timeout = expire_leases (now env b.store) timeout (leased_rows b) (on_store b read_clock)

  unfoldable pub tick : Board → Adapter → ℕ → ℕ → Board × Result TickResult
  tick b adapter max_retries timeout =
      with_task env (on_store b read_clock) (now env b.store) adapter max_retries (swept b timeout)
        (next_ready (swept b timeout))
