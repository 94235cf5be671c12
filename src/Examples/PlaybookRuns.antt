-- ===== src/Examples/PlaybookRuns.antt =====
-- Runs of a playbook on a machine that keeps the commands it ran and fails at one of them.
use hermes_managed_network.Prelude.{String, false, Option, some, List, [], ◌∷◌, ◌==◌, if◌then◌else◌}
use hermes_managed_network.Json.{pos}
use hermes_managed_network.Executor.{Completed}
use hermes_managed_network.Playbooks.{Playbook, selected_of, run}
use hermes_managed_network.Playbooks.Plan.{plan}
use hermes_managed_network.Playbooks.Stops.{Executed, run-Executed}

abbrev restart : Playbook
restart = record {
  id = "restart";
  name = "restart";
  risk = "low";
  permissions = [];
  inputs = [];
  precheck = "which {{ unit }}" ∷ [];
  backup = [];
  action = "stop {{ unit }}" ∷ "start {{ unit }}" ∷ [];
  verify = "status" ∷ [];
  rollback_hint = [];
}

abbrev log_and_fail : List String → String → List String × Option Completed
log_and_fail m command = (
  command ∷ m,
  some (record { returncode = if command == "stop web" then pos 1 else pos 0; out = ""; err = "" }),
)

run-Executed_example :
    Executed log_and_fail false 7 [] restart
      (("unit", "web") ∷ [])
      []
      []
      (plan restart (("unit", "web") ∷ []) (selected_of []))
      (run log_and_fail false 7 [] restart (("unit", "web") ∷ []) [] [])
run-Executed_example = run-Executed log_and_fail false 7 [] restart (("unit", "web") ∷ []) [] []
