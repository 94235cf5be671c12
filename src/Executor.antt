-- ===== src/Executor.antt =====
-- The SSH executor: run_ssh_task, ssh_target_details_for_node and classify_ssh_failure of
-- src/hermes_managed_network/executor.py. `subprocess.run` is a parameter; it gives nothing where the
-- call raises, as it does when the time is over. So are the elapsed time and `int` of a text.
pub mod Checks
pub mod Runs
use Prim.Native.String.{◌++◌ as join, len, slice}
use hermes_managed_network.Prelude.{
  ℕ, zero, suc, ◌-◌, String, Bool, true, false, Option, none, some, List, [], ◌∷◌, ◌==◌, ◌||◌, ◌&&◌,
  not, leb, starts_with, if◌then◌else◌,
}
use hermes_managed_network.Json.{ℤ, pos, negsuc, is_zero, num, string, Fields, field, end}
use hermes_managed_network.Schema.{
  Node, Task, Store, Env, Error, Result, ok, raised, value_error, permission_error,
  ssh_execution_error, timeout_expired, assertion_error, now, str, read_clock,
}
use hermes_managed_network.Text.{has_word, strip_text, rstrip_text, count_chars, take_chars}
use hermes_managed_network.Table.{contains}
use hermes_managed_network.Audit.{record_audit}
use hermes_managed_network.Nodes.{load_node, is_managed}
use hermes_managed_network.Tasks.{load_task, save_task, complete_task}

pub record Completed : Type 0 where
  pub returncode : ℤ
  pub out : String
  pub err : String

pub record SshTarget : Type 0 where
  pub host : String
  pub user : String
  pub port : String
  pub source : String

-- what the executor takes from outside
pub record Shell : Type 0 where
  pub run : List String → Option Completed
  pub duration_ms : ℕ
  pub to_int : String → Option ℤ

abbrev pub safe_risks : List String
safe_risks = "low" ∷ "medium" ∷ []

-- a == b of numbers
abbrev is_number : ℕ → ℕ → Bool
is_number a b = leb a b && leb b a

abbrev is_code : ℕ → ℤ → Bool
is_code a (pos b) = is_number a b
is_code a (negsuc b) = false

-- allow_risk or SAFE_RISKS
abbrev pub allowed_risks : List String → List String
allowed_risks [] = safe_risks
allowed_risks (r ∷ rs) = r ∷ rs

unfoldable pub preview_output : String → String
preview_output text =
    let normalized = strip_text text in
    if leb (count_chars normalized) 240
    then normalized
    else join (rstrip_text (take_chars 239 normalized)) "…"

unfoldable pub classify_ssh_failure : ℤ → String → String
classify_ssh_failure exit_code stderr =
    if has_word "permission denied" stderr
      || has_word "publickey" stderr
      || has_word "authentication failed" stderr
    then "ssh_auth"
    else if is_code 124 exit_code
    then "timeout"
    else if has_word "timed out" stderr
        || has_word "no route to host" stderr
        || has_word "connection refused" stderr
        || has_word "could not resolve hostname" stderr
    then "ssh_connectivity"
    else if not (is_zero exit_code)
    then "remote_command"
    else "none"

-- the text after key= in the first label that starts with it
unfoldable pub ssh_label_value : List String → String → String
ssh_label_value [] key = ""
ssh_label_value (label ∷ labels) key =
    let prefix = join key "=" in
    let rest = ssh_label_value labels key in
    if starts_with label prefix then slice label (len prefix) (len label) else rest

-- a or b
abbrev or_text : String → String → String
or_text a b = if a == "" then b else a

abbrev first_address : List String → String
first_address [] = ""
first_address (a ∷ _) = a

-- the host and where it comes from
unfoldable pub ssh_host_of : Node → String × String
ssh_host_of node =
    let label = ssh_label_value node.labels "ssh-host" in
    let address = first_address node.addresses in
    if not (node.ssh_host == "")
    then (node.ssh_host, "ssh_host")
    else if not (label == "")
    then (label, "label:ssh-host")
    else if not (node.network_ip == "")
    then (node.network_ip, "network_ip")
    else (address, if address == "" then "" else "address")

-- the status that a run gives the task before the command starts
abbrev pub started : ℕ → Task → Task
started at t = record t { status = "running"; started_at = some at }

module _ (env : Env) where
  unfoldable pub ssh_port_of : Node → String
  ssh_port_of node =
      let label = ssh_label_value node.labels "ssh-port" in
      if is_number 22 node.ssh_port && not (label == "")
      then label
      else str env (num (pos (if is_number 0 node.ssh_port then 22 else node.ssh_port)))

  unfoldable pub ssh_target_details_for_node : Node → Result SshTarget
  ssh_target_details_for_node node =
      let (host, source) = ssh_host_of node in
      if host == ""
      then raised value_error
      else ok (record {
        host = host;
        user = or_text node.ssh_user (or_text (ssh_label_value node.labels "ssh-user") "root");
        port = ssh_port_of node;
        source = source;
      })

  unfoldable pub with_target : Task → Result SshTarget → Result (Task × SshTarget)
  with_target task (raised e) = raised e
  with_target task (ok target) = ok (task, target)

  -- what run_ssh_task tests before it changes anything: the task and its target, or the exception
  unfoldable pub checked_node : Task → Option Node → Result (Task × SshTarget)
  checked_node task none = raised value_error
  checked_node task (some node) =
      if node.status == "managed"
      then with_target task (ssh_target_details_for_node node)
      else raised value_error

  unfoldable pub ssh_checks : Store → List String → Option Task → Result (Task × SshTarget)
  ssh_checks s allow_risk none = raised value_error
  ssh_checks s allow_risk (some task) =
      if not (task.executor == "ssh")
      then raised value_error
      else if not (contains (allowed_risks allow_risk) task.risk)
      then raised permission_error
      else checked_node task (load_node s task.node_id)

  -- the audit details; `int(target.port)` raises where the port is no number
  abbrev pub details_of : Shell → Task → SshTarget → Completed → ℤ → Fields
  details_of shell task target completed port = field "node_id" (string task.node_id) (
      field "command" (string task.command) (
        field "host" (string target.host) (
          field "user" (string target.user) (
            field "port" (num port) (
              field "target_source" (string target.source) (
                field "duration_ms" (num (pos shell.duration_ms)) (
                  field "stdout_preview" (string (preview_output completed.out)) (
                    field "stderr_preview" (string (preview_output completed.err)) (
                      field "failure_reason"
                        (string (classify_ssh_failure completed.returncode completed.err))
                        end)))))))))

  -- assert finished is not None; a command that failed raises
  unfoldable pub finish : Completed → Store × Option Task → Store × Result Task
  finish completed (s, none) = (s, raised assertion_error)
  finish completed (s, some task) =
      if is_zero completed.returncode then (s, ok task) else (s, raised ssh_execution_error)

  unfoldable pub report_ssh :
      Shell → Store → Task → SshTarget → Completed → Option ℤ → Store × Result Task
  report_ssh shell s task target completed none = (s, raised value_error)
  report_ssh shell s task target completed (some port) = finish completed (
      complete_task env
        (record_audit env s "task" "task" task.task_id "ssh_execute"
          (if is_zero completed.returncode then "ok" else "failed")
          (details_of shell task target completed port))
        task.task_id completed.returncode completed.out completed.err)

  -- what follows subprocess.run
  unfoldable pub after_command :
      Shell → Store → Task → SshTarget → Option Completed → Store × Result Task
  after_command shell s task target none = (s, raised timeout_expired)
  after_command shell s task target (some completed) =
      report_ssh shell s task target completed (shell.to_int target.port)

  abbrev pub ssh_command : Task → SshTarget → List String
  ssh_command task target =
      "ssh" ∷ "-p" ∷ target.port ∷ join target.user (join "@" target.host) ∷ task.command ∷ []

  unfoldable pub execute_ssh : Shell → Store → Result (Task × SshTarget) → Store × Result Task
  execute_ssh shell s (raised e) = (s, raised e)
  execute_ssh shell s (ok (task, target)) =
      let running = started (now env s) task in
      after_command shell (save_task (read_clock s) running) running target
        (shell.run (ssh_command running target))

  unfoldable pub run_ssh_task : Shell → Store → String → List String → Store × Result Task
  run_ssh_task shell s task_id allow_risk =
      execute_ssh shell s (ssh_checks s allow_risk (load_task s task_id))
