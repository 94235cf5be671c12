-- ===== src/Playbooks.antt =====
-- Playbooks and their executor: src/hermes_managed_network/playbook.py and the PlaybookExecutor of
-- src/hermes_managed_network/executor.py. The machine that the commands change is a parameter, with what
-- `subprocess.run` does to it; it gives nothing where it raises TimeoutExpired. Reading a playbook from
-- its file is YAML.
pub mod Plan
pub mod Stops
use Prim.Native.String.{◌++◌ as join}
use hermes_managed_network.Prelude.{
  ℕ, zero, suc, ◌-◌, String, Bool, true, false, Option, none, some, List, [], ◌∷◌, ◌++◌, map, not,
  ◌==◌, ◌&&◌, starts_with, if◌then◌else◌,
}
use hermes_managed_network.Json.{ℤ, pos, is_zero, Fields, get}
use hermes_managed_network.Text.{count_chars}
use hermes_managed_network.Table.{contains}
use hermes_managed_network.Schema.{Error, permission_error, value_error, timeout_expired}
use hermes_managed_network.TaskDispatch.{has}
use hermes_managed_network.Executor.{Completed, allowed_risks}

pub record Playbook : Type 0 where
  pub id : String
  pub name : String
  pub risk : String
  pub permissions : List String
  pub inputs : List (String × Fields)
  pub precheck : List String
  pub backup : List String
  pub action : List String
  pub verify : List String
  pub rollback_hint : List String

pub record CommandResult : Type 0 where
  pub phase : String
  pub command : String
  pub exit_code : ℤ
  pub out : String
  pub err : String

pub record PlaybookRun : Type 0 where
  pub playbook_id : String
  pub started_at : ℕ
  pub results : List CommandResult

-- how a run ends: with its results, with a PlaybookExecutionError, or with another exception
pub data Ended : Type 0 where
  finished : PlaybookRun → Ended
  command_failed : CommandResult → Ended
  raises : Error → Ended

-- s.replace(old, new) of a text that is not empty; `skip` counts the characters of a match that are left
replaced : String → String → ℕ → String → String
replaced old new skip String.[] = String.[]
replaced old new (suc skip) (String.◌∷◌ c s) = replaced old new skip s
replaced old new zero (String.◌∷◌ c s) = elim (starts_with (String.◌∷◌ c s) old) [
  | true ↦ join new (replaced old new (count_chars old - 1) s)
  | false ↦ String.◌∷◌ c (replaced old new zero s)
]

abbrev replace : String → String → String → String
replace old new s = replaced old new zero s

-- the values of a dict, in its order
unfoldable pub render : String → List (String × String) → String
unfolding replaced
render command [] = command
render command ((key, value) ∷ rest) =
    render
      (replace (join "{{" (join key "}}")) value
        (replace (join "{{ " (join key " }}")) value command))
      rest

-- name in values
has_value : String → List (String × String) → Bool
has_value name [] = false
has_value name ((key, value) ∷ rest) = if key == name then true else has_value name rest

unfoldable pub required_inputs_given : List (String × Fields) → List (String × String) → Bool
unfolding has_value
required_inputs_given [] values = true
required_inputs_given ((name, spec) ∷ rest) values =
    not (has "required" spec && not (has_value name values)) && required_inputs_given rest values

abbrev pub safe_phases : List String
safe_phases = "precheck" ∷ "backup" ∷ "action" ∷ "verify" ∷ "rollback_hint" ∷ []

-- getattr(playbook, phase) of a phase that is supported
unfoldable pub commands_of : Playbook → String → List String
commands_of playbook phase =
    if phase == "precheck"
    then playbook.precheck
    else if phase == "backup"
    then playbook.backup
    else if phase == "action"
    then playbook.action
    else if phase == "verify"
    then playbook.verify
    else playbook.rollback_hint

unfoldable pub render_phase : Playbook → List (String × String) → String → Option (List String)
render_phase playbook values phase =
    if required_inputs_given playbook.inputs values
    then some (map (λ command. render command values) (commands_of playbook phase))
    else none

unfoldable pub all_supported : List String → Bool
all_supported [] = true
all_supported (phase ∷ rest) = contains safe_phases phase && all_supported rest

-- phases or [...]
abbrev pub selected_of : List String → List String
selected_of [] = "precheck" ∷ "backup" ∷ "action" ∷ "verify" ∷ []
selected_of (phase ∷ rest) = phase ∷ rest

-- results that are so far, or how the run ends
pub data Progress : Type 0 where
  going : List CommandResult → Progress
  stopped : Ended → Progress

module _ {M : Type 0} (shell : M → String → M × Option Completed) (dry_run : Bool) where
  unfoldable pub result_of_command :
      String → String → M × Option Completed → M × Option CommandResult
  result_of_command phase command (m, none) = (m, none)
  result_of_command phase command (m, some c) = (
    m,
    some (record {
      phase = phase;
      command = command;
      exit_code = c.returncode;
      out = c.out;
      err = c.err;
    }),
  )

  unfoldable pub run_command : M → String → String → M × Option CommandResult
  run_command m phase command =
      if dry_run
      then (
        m,
        some (record { phase = phase; command = command; exit_code = pos 0; out = ""; err = "" }),
      )
      else result_of_command phase command (shell m command)

  -- what follows one command, before the others: results.append, and the raise
  unfoldable pub append_result : List CommandResult → M × Option CommandResult → M × Progress
  append_result results (m, none) = (m, stopped (raises timeout_expired))
  append_result results (m, some r) = (
    m,
    if not (is_zero r.exit_code) then stopped (command_failed r) else going (results ++ r ∷ []),
  )

  -- for command in ...
  unfoldable pub run_commands : String → List String → M × Progress → M × Progress
  run_commands phase [] x = x
  run_commands phase (command ∷ rest) (m, stopped e) = (m, stopped e)
  run_commands phase (command ∷ rest) (m, going results) =
      run_commands phase rest (append_result results (run_command m phase command))

  -- the commands of a phase, or the ValueError of its rendering
  unfoldable pub run_rendered : String → Option (List String) → M × Progress → M × Progress
  run_rendered phase none (m, p) = (m, stopped (raises value_error))
  run_rendered phase (some commands) x = run_commands phase commands x

  -- for phase in selected
  unfoldable pub run_phases :
      Playbook → List (String × String) → List String → M × Progress → M × Progress
  run_phases playbook values [] x = x
  run_phases playbook values (phase ∷ rest) (m, stopped e) = (m, stopped e)
  run_phases playbook values (phase ∷ rest) (m, going results) =
      run_phases playbook values rest
        (run_rendered phase (render_phase playbook values phase) (m, going results))

  unfoldable pub ended : Playbook → ℕ → M × Progress → M × Ended
  ended playbook at (m, stopped e) = (m, e)
  ended playbook at (m, going results) =
      (m, finished (record { playbook_id = playbook.id; started_at = at; results = results }))

  -- `at` is the time that the clock gives at the end
  unfoldable pub run :
      ℕ → M → Playbook → List (String × String) → List String → List String → M × Ended
  run at m playbook values phases allow_risk =
      if not (contains (allowed_risks allow_risk) playbook.risk)
      then (m, raises permission_error)
      else if not (all_supported (selected_of phases))
      then (m, raises value_error)
      else ended playbook at (run_phases playbook values (selected_of phases) (m, going []))
