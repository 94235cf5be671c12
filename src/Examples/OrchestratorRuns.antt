-- ===== src/Examples/OrchestratorRuns.antt =====
-- Runs of the orchestrator: a queue with two tasks and a worker.
use hermes_managed_network.Prelude.{◌≡◌, refl, some, none, [], ◌∷◌}
use hermes_managed_network.Json.{pos}
use hermes_managed_network.Table.{IsKeyed, order_by, select, insert, lookup, update, rowcount}
use hermes_managed_network.Audit.{record_audit, insert_audit_event}
use hermes_managed_network.Schema.{new_store, now, read_clock}
use hermes_managed_network.Orchestrator.{
  next_ready, next_worker, ahead, fresher, int_leb, expire_leases, audit, enqueue, task_key,
  worker_key, OrchestratorTask, Worker, Board, Adapter, on_store,
}
use hermes_managed_network.Orchestrator.Tick.{
  swept, tick, with_task, with_worker, after_dispatch, lease, committed, leased_report,
  add_assignment, with_assignments, add_report, with_reports,
}
use hermes_managed_network.Orchestrator.Outcomes.{Ticked, tick-Ticked, dispatched_of}
use hermes_managed_network.Orchestrator.Choosing.{Choice, tick_dispatches}
use hermes_managed_network.Orchestrator.Runs.{
  IsSound, Reach, here, then_step, enqueues, ticks, Reach-IsSound,
}
use hermes_managed_network.Examples.{host}

abbrev slow : OrchestratorTask
slow = record {
  task_id = "orch_1";
  title = "docs";
  scope = "docs";
  risk = "low";
  priority = pos 1;
  status = "queued";
  worker_hint = "";
  source = "cli";
  created_at = 10;
  updated_at = 10;
  attempts = 0;
}

abbrev urgent : OrchestratorTask
urgent = record slow { task_id = "orch_2"; priority = pos 9; created_at = 20 }

abbrev bridge : Worker
bridge = record {
  worker_id = "w1";
  transport = "bridge";
  status = "online";
  labels = [];
  registered_at = 5;
  updated_at = 5;
}

abbrev board : Board
board = record {
  store = new_store;
  tasks = slow ∷ urgent ∷ [];
  workers = bridge ∷ [];
  assignments = [];
  reports = [];
}

abbrev accepting : Adapter
accepting = λ _ _. none

abbrev refusing : Adapter
refusing = λ _ _. some "bridge is down"

tick-Ticked_example :
    Ticked host
      (on_store board read_clock)
      (now host board.store)
      refusing
      3
      (swept host board 1800)
      (tick host board refusing 3 1800)
tick-Ticked_example = tick-Ticked host board refusing 3 1800

dispatches_urgent : dispatched_of (tick host board accepting 3 1800).1 ≡ ("orch_2", "w1") ∷ []
unfolding tick with_task next_ready order_by select expire_leases ahead int_leb with_worker
    next_worker after_dispatch lease committed leased_report add_assignment with_assignments insert
    lookup update add_report with_reports audit record_audit insert_audit_event fresher
dispatches_urgent = refl

unique_tasks : IsKeyed task_key board.tasks
unfolding lookup
unique_tasks = (refl, (refl, tt))

unique_workers : IsKeyed worker_key board.workers
unfolding lookup
unique_workers = (refl, tt)

tick_dispatches_example :
    Choice accepting
      (now host board.store)
      "orch_2"
      "w1"
      (swept host board 1800)
      (tick host board accepting 3 1800).0
tick_dispatches_example =
    tick_dispatches host board accepting 3 1800 "orch_2" "w1" unique_tasks unique_workers
      dispatches_urgent

abbrev empty_board : Board
empty_board = record board { tasks = [] }

empty-IsSound : IsSound empty_board
unfolding lookup rowcount
empty-IsSound = (tt, λ id. refl)

abbrev filled : Board
filled = (enqueue host empty_board "docs" "docs" "low" (pos 1) "" "cli").0

ticked : Reach host empty_board (tick host filled accepting 3 1800).0
ticked =
    then_step (then_step here (enqueues empty_board "docs" "docs" "low" (pos 1) "" "cli"))
      (ticks filled accepting 3 1800)

Reach-IsSound_example : IsSound (tick host filled accepting 3 1800).0
Reach-IsSound_example = Reach-IsSound host ticked empty-IsSound
