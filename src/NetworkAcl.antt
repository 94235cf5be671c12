-- ===== src/NetworkAcl.antt =====
-- The approved change of a network ACL: src/hermes_managed_network/network_acl.py. The files are a
-- state of their own beside the store. What the source takes from the host is a parameter: the text of
-- a path, its parent, `mkdir`, the digest of a text, and `subprocess.run`, which may change the files
-- and gives nothing where it raises.
pub mod Guards
pub mod Rows
use Prim.Native.String.{◌++◌ as join}
use hermes_managed_network.Prelude.{
  String, Bool, true, false, Option, none, some, ◌==◌, ◌&&◌, ◌||◌, not, if◌then◌else◌,
}
use hermes_managed_network.Json.{ℤ, is_zero, Json, Fields, null, num, string, field, end, get}
use hermes_managed_network.Text.{strip_text}
use hermes_managed_network.Schema.{
  ApprovalRequest, Store, Env, Error, Result, ok, raised, timeout_expired, network_provider_error,
  os_error, str_or,
}
use hermes_managed_network.Audit.{record_audit}
use hermes_managed_network.ApprovalTable.{load_approval_request}
use hermes_managed_network.Executor.{Completed}

pub data Entry : Type 0 where
  absent : Entry
  directory : Entry
  file : String → Entry

abbrev pub Disk : Type 0
Disk = String → Entry

pub record Host : Type 0 where
  pub full_path : String → String
  pub parent : String → String
  pub make_dirs : Disk → String → Option Disk
  pub sha256 : String → String
  pub run : Disk → String → String → Disk × Option Completed

-- the store and the files
pub record World : Type 0 where
  pub store : Store
  pub disk : Disk

-- path.read_text() of a path, if it exists, else ""; reading a directory raises
abbrev pub text_or_empty : Entry → Option String
text_or_empty absent = some ""
text_or_empty directory = none
text_or_empty (file text) = some text

abbrev pub text_of_file : Entry → Option String
text_of_file (file text) = some text
text_of_file _ = none

abbrev pub exists : Entry → Bool
exists absent = false
exists _ = true

-- path.write_text(text)
abbrev pub write : String → String → Disk → Disk
write path text d = λ p. if p == path then file text else d p

-- what came of a command that may be empty
pub data Run : Type 0 where
  ran : Option ℤ → Run
  failed : ℤ → String → Run
  timed_out : Run

-- a or b
abbrev or_text : String → String → String
or_text a b = if a == "" then b else a

-- None or a number
abbrev exit_json : Option ℤ → Json
exit_json none = null
exit_json (some code) = num code

-- subject_type == "network_acl" and action == "network.acl.apply", of an approved request
abbrev pub applies : ApprovalRequest → Bool
applies approval =
    approval.status == "approved"
    && approval.subject_type == "network_acl"
    && approval.action == "network.acl.apply"

module _ (env : Env) (host : Host) where
  -- str(Path(str(details.get(key) or "")).expanduser())
  abbrev pub path_at : String → Fields → String
  path_at key details = host.full_path (str_or env key details "")

  abbrev pub current_of : ApprovalRequest → String
  current_of approval = path_at "current_path" approval.details

  abbrev pub proposed_of : ApprovalRequest → String
  proposed_of approval = path_at "proposed_path" approval.details

  abbrev pub expected_of : ApprovalRequest → String
  expected_of approval = str_or env "old_sha256" approval.details ""

  unfoldable pub outcome_of_run : String → Disk × Option Completed → Disk × Run
  outcome_of_run label (d, none) = (d, timed_out)
  outcome_of_run label (d, some c) =
      if is_zero c.returncode
      then (d, ran (some c.returncode))
      else (d, failed c.returncode (join label (or_text (strip_text c.err) (strip_text c.out))))

  unfoldable pub run_step : String → Disk → String → String → Disk × Run
  run_step label d command cwd =
      if command == "" then (d, ran none) else outcome_of_run label (host.run d command cwd)

  unfoldable pub audit_mismatch : Store → ApprovalRequest → String → Store
  audit_mismatch s approval old_sha256 =
      record_audit env s "network" "network_acl" (current_of approval) "acl/apply" "failed" (
        field "approval_id" (string approval.approval_id) (
          field "current_path" (string (current_of approval)) (
            field "proposed_path" (string (proposed_of approval)) (
              field "error" (string "current ACL sha256 mismatch") (
                field "expected_old_sha256" (string (expected_of approval))
                  (field "actual_old_sha256" (string old_sha256) end))))))

  -- the details of the audit rows that follow the write
  abbrev applied_details : ApprovalRequest → String → String → Option ℤ → Option ℤ → Fields → Fields
  applied_details approval old_text new_text reload verify rest =
      field "approval_id" (string approval.approval_id) (
        field "current_path" (string (current_of approval)) (
          field "proposed_path" (string (proposed_of approval)) (
            field "old_sha256" (string (host.sha256 old_text)) (
              field "new_sha256" (string (host.sha256 new_text)) (
                field "reload_exit_code" (exit_json reload)
                  (field "verify_exit_code" (exit_json verify) rest))))))

  unfoldable pub audit_failed :
      Store → ApprovalRequest → String → String → Option ℤ → Option ℤ → String → Store
  audit_failed s approval old_text new_text reload verify error =
      record_audit env s "network" "network_acl" (current_of approval) "acl/apply" "failed" (
        applied_details approval old_text new_text reload verify (field "error" (string error) end))

  unfoldable pub audit_applied :
      Store → ApprovalRequest → String → String → Option ℤ → Option ℤ → Store
  audit_applied s approval old_text new_text reload verify =
      record_audit env s "network" "network_acl" (current_of approval) "acl/apply" "ok"
        (applied_details approval old_text new_text reload verify end)

  -- what follows the verify command
  unfoldable pub after_verify :
      Store → ApprovalRequest → String → String → Option ℤ → Disk × Run → World × Result Bool
  after_verify s approval old_text new_text reload (d, timed_out) =
      (record { store = s; disk = d }, raised timeout_expired)
  after_verify s approval old_text new_text reload (d, failed code error) = (
    record { store = audit_failed s approval old_text new_text reload (some code) error; disk = d },
    raised (network_provider_error error),
  )
  after_verify s approval old_text new_text reload (d, ran verify) = (
    record { store = audit_applied s approval old_text new_text reload verify; disk = d },
    ok true,
  )

  -- what follows the reload command
  unfoldable pub after_reload :
      Store → ApprovalRequest → String → String → Disk × Run → World × Result Bool
  after_reload s approval old_text new_text (d, timed_out) =
      (record { store = s; disk = d }, raised timeout_expired)
  after_reload s approval old_text new_text (d, failed code error) = (
    record { store = audit_failed s approval old_text new_text (some code) none error; disk = d },
    raised (network_provider_error error),
  )
  after_reload s approval old_text new_text (d, ran reload) =
      after_verify s approval old_text new_text reload (
        run_step "Headscale ACL verify 失败: " d
          (strip_text (str_or env "verify_command" approval.details ""))
          (host.parent (current_of approval)))

  -- the commands, once the new text is written
  unfoldable pub reload_acl : Store → ApprovalRequest → String → String → Disk → World × Result Bool
  reload_acl s approval old_text new_text d = after_reload s approval old_text new_text (
      run_step "Headscale reload 失败: " d
        (strip_text (str_or env "reload_command" approval.details ""))
        (host.parent (current_of approval)))

  -- current_path.parent.mkdir(...); current_path.write_text(new_text)
  unfoldable pub write_acl :
      World → ApprovalRequest → String → String → Option Disk → World × Result Bool
  write_acl w approval old_text new_text none = (w, raised os_error)
  write_acl w approval old_text new_text (some d) =
      reload_acl w.store approval old_text new_text (write (current_of approval) new_text d)

  -- what follows the reading of both files
  unfoldable pub apply_texts :
      World → ApprovalRequest → Option String → Option String → World × Result Bool
  apply_texts w approval none new_text = (w, raised os_error)
  apply_texts w approval (some old_text) none = (w, raised os_error)
  apply_texts w approval (some old_text) (some new_text) =
      let old_sha256 = host.sha256 old_text in
      if not (expected_of approval == "") && not (expected_of approval == old_sha256)
      then (
        record w { store = audit_mismatch w.store approval old_sha256 },
        raised (network_provider_error "当前 ACL 已变化，请重新生成 diff 后再审批"),
      )
      else write_acl w approval old_text new_text
          (host.make_dirs w.disk (host.parent (current_of approval)))

  -- A Path is true whatever its text, so of the test of the paths only the last part can hold.
  unfoldable pub dispatch_acl : World → Option ApprovalRequest → World × Result Bool
  dispatch_acl w none = (w, ok false)
  dispatch_acl w (some approval) =
      if not (applies approval)
      then (w, ok false)
      else if not (exists (w.disk (proposed_of approval)))
      then (w, ok false)
      else apply_texts w approval (text_or_empty (w.disk (current_of approval)))
          (text_of_file (w.disk (proposed_of approval)))

  unfoldable pub dispatch_approved_network_acl_apply : World → String → World × Result Bool
  dispatch_approved_network_acl_apply w approval_id =
      dispatch_acl w (load_approval_request w.store approval_id)
