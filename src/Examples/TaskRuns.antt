-- ===== src/Examples/TaskRuns.antt =====
-- Runs of the task queue.
use Prim.Native.String.{len}
use Prim.Native.String.{◌++◌ as join}
use text.Mathlib.TextPositions.{len-append}
use hermes_managed_network.Prelude.{
  ℕ, zero, suc, ◌+◌, ◌<◌, ◌∙◌, ap, arith, String, ◌≡◌, ◌≢◌, refl, true, false, none, some, [], ◌∷◌,
}
use hermes_managed_network.Json.{pos, is_zero}
use hermes_managed_network.Table.{IsKeyed, contains, lookup, order_by, select, update}
use hermes_managed_network.Schema.{Task, Store, now}
use hermes_managed_network.Nodes.{load_node, is_managed}
use hermes_managed_network.Tasks.{
  task_key, load_task, claimed, completed, is_waiting, next_waiting, claim_next_task,
  expire_stuck_tasks_at, complete_task,
}
use hermes_managed_network.Tasks.Output.{
  task_output_max_bytes, cap_task_output, Capped, cap_task_output_bounds,
}
use hermes_managed_network.Tasks.Claim.{Handed, claim_next_task-Handed, claim_next_task-none}
use hermes_managed_network.Tasks.Watchdog.{stuck_at, swept, expire_stuck_tasks_exact}
use hermes_managed_network.Tasks.Lifecycle.{Step, Reach, terminal_forever}
use hermes_managed_network.Tasks.Report.{complete_task_outcome}
use hermes_managed_network.Tasks.Rows.{finished, or_same}
use hermes_managed_network.Tasks.AtMostOnce.{claim_at_most_once}
use hermes_managed_network.Examples.{host, first_task, second_task, tasks_store}

unique_tasks : IsKeyed task_key tasks_store.tasks
unfolding lookup
unique_tasks = (refl, (refl, tt))

abbrev handed_first : Task
handed_first = claimed 1000 60_001_000 first_task

abbrev claimed_store : Store
claimed_store = (claim_next_task host tasks_store "n1" "worker" 60).0

abbrev handed_second : Task
handed_second = claimed 1001 60_001_001 second_task

hands_first : (claim_next_task host tasks_store "n1" "worker" 60).1 ≡ some handed_first
unfolding claim_next_task load_node lookup next_waiting order_by select update
hands_first = refl

hands_second : (claim_next_task host claimed_store "n1" "worker" 60).1 ≡ some handed_second
unfolding claim_next_task load_node lookup next_waiting order_by select update
hands_second = refl

claim_next_task-Handed_example : Handed host tasks_store "n1" "worker" 60 handed_first
claim_next_task-Handed_example =
    claim_next_task-Handed host tasks_store "n1" "worker" 60 unique_tasks handed_first hands_first

claim_at_most_once_example : handed_second.task_id ≢ handed_first.task_id
claim_at_most_once_example =
    claim_at_most_once host tasks_store claimed_store "n1" "worker" "n1" "worker" 60 60 handed_first
      handed_second unique_tasks hands_first Reach.here hands_second

-- no task of this node waits for an executor of another kind
no_ssh_task : (claim_next_task host tasks_store "n1" "ssh" 60).1 ≡ none
unfolding claim_next_task load_node lookup next_waiting order_by select update
no_ssh_task = refl

managed_edge : is_managed (load_node tasks_store "n1") ≡ true
unfolding load_node lookup
managed_edge = refl

holds_first : load_task tasks_store "task_1" ≡ some first_task
unfolding load_task lookup
holds_first = refl

claim_next_task-none_example : is_waiting "n1" "ssh" first_task ≡ false
claim_next_task-none_example =
    claim_next_task-none host tasks_store "n1" "ssh" 60 unique_tasks managed_edge no_ssh_task
      "task_1" first_task holds_first

abbrev one_claim : Reach host tasks_store claimed_store
one_claim = Reach.next Reach.here (Step.claim tasks_store "n1" "worker" 60)

unique_claimed : IsKeyed task_key claimed_store.tasks
unfolding claim_next_task load_node lookup next_waiting order_by select update
unique_claimed = (refl, (refl, tt))

-- the lease of the first task ended long before this sweep
expire_stuck_tasks_exact_example :
    (contains (expire_stuck_tasks_at host 90_000_000 5 claimed_store).1 "task_1"
      ≡ stuck_at 90_000_000 5_000_000 (load_task claimed_store "task_1"))
    × (load_task (expire_stuck_tasks_at host 90_000_000 5 claimed_store).0 "task_1"
        ≡ swept 90_000_000 5_000_000 (load_task claimed_store "task_1"))
expire_stuck_tasks_exact_example =
    expire_stuck_tasks_exact host 90_000_000 5 claimed_store unique_claimed "task_1"

abbrev done : Task
done = completed 900 (pos 0) "up" "" handed_first

abbrev done_store : Store
done_store = record tasks_store { tasks = done ∷ second_task ∷ [] }

holds_done : load_task done_store "task_1" ≡ some done
unfolding load_task lookup
holds_done = refl

terminal_forever_example :
    load_task (claim_next_task host done_store "n1" "worker" 60).0 "task_1" ≡ some done
unfolding is_zero
terminal_forever_example =
    terminal_forever host "task_1" done
      (Reach.next Reach.here (Step.claim done_store "n1" "worker" 60)) holds_done refl

-- the text 2 ^ n times, and the length that it has
doubled : ℕ → String → String
doubled zero text = text
doubled (suc n) text = doubled n (join text text)

doubled_length : ℕ → ℕ → ℕ
doubled_length zero k = k
doubled_length (suc n) k = doubled_length n (k + k)

len-doubled : (n : ℕ) (text : String) → len (doubled n text) ≡ doubled_length n (len text)
unfolding doubled doubled_length
len-doubled zero text = refl
len-doubled (suc n) text =
    len-doubled n (join text text) ∙ ap (doubled_length n) (len-append text text)

-- an output of 131072 bytes
abbrev long_output : String
long_output = doubled 14 "log line"

long_output_exceeds : task_output_max_bytes < len long_output
unfolding doubled_length
long_output_exceeds = omega (arith, len-doubled 14 "log line")

cap_task_output_bounds_example : Capped long_output (cap_task_output long_output)
cap_task_output_bounds_example = cap_task_output_bounds long_output

complete_task_outcome_example :
    ((complete_task host claimed_store "task_1" (pos 0) "ok" "").1
      ≡ finished (now host claimed_store) (pos 0) "ok" "" (load_task claimed_store "task_1"))
    × (load_task (complete_task host claimed_store "task_1" (pos 0) "ok" "").0 "task_1"
        ≡ or_same
            (finished (now host claimed_store) (pos 0) "ok" "" (load_task claimed_store "task_1"))
            (load_task claimed_store "task_1"))
complete_task_outcome_example =
    complete_task_outcome host claimed_store "task_1" "task_1" (pos 0) "ok" ""
