-- ===== src/Examples/SshRuns.antt =====
-- Runs of the SSH executor, of a task that has succeeded before.
use hermes_managed_network.Nodes.{load_node}
use hermes_managed_network.Table.{lookup, contains}
use hermes_managed_network.Prelude.{◌≡◌, refl, ◌⊎◌, false, none, some, [], ◌∷◌, if◌then◌else◌}
use hermes_managed_network.Json.{pos, is_zero}
use hermes_managed_network.Schema.{
  Node, Task, Store, ok, raised, timeout_expired, ssh_execution_error, new_store, str,
}
use hermes_managed_network.Tasks.{load_task, completed, pending_task}
use hermes_managed_network.Tasks.Watchdog.{stuck_at}
use hermes_managed_network.Executor.{
  Completed, SshTarget, Shell, started, run_ssh_task, ssh_target_details_for_node, ssh_host_of,
  ssh_label_value, ssh_port_of,
}
use hermes_managed_network.Executor.Checks.{MayRun, run_ssh_task_guarded}
use hermes_managed_network.Executor.Runs.{run_ssh_task_stores, run_ssh_task_timeout}
use hermes_managed_network.Examples.{host, edge}

abbrev succeeded_task : Task
succeeded_task =
    completed 900 (pos 0) "up" "" (pending_task "task_9" "n1" "uptime" "low" "ops" 10 "ssh")

abbrev ssh_edge : Node
ssh_edge = record edge { ssh_host = "10.0.0.1" }

abbrev ssh_store : Store
ssh_store = record new_store { nodes = ssh_edge ∷ []; tasks = succeeded_task ∷ [] }

abbrev edge_target : SshTarget
edge_target = record { host = "10.0.0.1"; user = "root"; port = "{}"; source = "ssh_host" }

abbrev no_route : Completed
no_route = record { returncode = pos 255; out = ""; err = "No route to host" }

-- a shell whose commands fail, and one whose commands do not end
abbrev failing : Shell
failing = record { run = λ _. some no_route; duration_ms = 12; to_int = λ _. some (pos 22) }

abbrev hanging : Shell
hanging = record { run = λ _. none; duration_ms = 12; to_int = λ _. some (pos 22) }

may_run : MayRun host ssh_store [] (load_task ssh_store "task_9") succeeded_task edge_target
unfolding load_task lookup contains load_node ssh_target_details_for_node ssh_host_of
    ssh_label_value ssh_port_of str
may_run = record {
  there = refl;
  executor = refl;
  risk = refl;
  node = ssh_edge;
  on = refl;
  managed = refl;
  target_of = refl;
}

run_ssh_task_guarded_example :
    ((run_ssh_task host failing ssh_store "task_9" []).0 ≡ ssh_store)
    ⊎ ((task : Task) × (target : SshTarget) × MayRun host ssh_store []
          (load_task ssh_store "task_9")
          task
          target)
run_ssh_task_guarded_example = run_ssh_task_guarded host failing ssh_store "task_9" []

run_ssh_task_stores_example :
    (load_task (run_ssh_task host failing ssh_store "task_9" []).0 "task_9"
      ≡ some (completed 1002 (pos 255) "" "No route to host" (started 1000 succeeded_task)))
    × ((run_ssh_task host failing ssh_store "task_9" []).1 ≡ (
        if is_zero (pos 255)
        then ok (completed 1002 (pos 255) "" "No route to host" (started 1000 succeeded_task))
        else raised ssh_execution_error))
run_ssh_task_stores_example =
    run_ssh_task_stores host failing ssh_store "task_9" [] succeeded_task edge_target no_route
      (pos 22) may_run refl refl

run_ssh_task_timeout_example :
    ((run_ssh_task host hanging ssh_store "task_9" []).1 ≡ raised timeout_expired)
    × (load_task (run_ssh_task host hanging ssh_store "task_9" []).0 "task_9"
        ≡ some (started 1000 succeeded_task))
    × (stuck_at 90_000_000 0
          (load_task (run_ssh_task host hanging ssh_store "task_9" []).0 "task_9")
        ≡ false)
run_ssh_task_timeout_example =
    run_ssh_task_timeout host hanging ssh_store "task_9" [] succeeded_task edge_target 90_000_000 0
      may_run refl
