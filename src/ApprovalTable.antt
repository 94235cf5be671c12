-- ===== src/ApprovalTable.antt =====
-- The table approval_requests: creating, storing and reading approval requests, of SQLiteStore
-- (src/hermes_managed_network/storage.py).
use Prim.Native.String.{◌++◌ as join}
use hermes_managed_network.Prelude.{String, Option, none, some, List, leb, ◌==◌, if◌then◌else◌}
use hermes_managed_network.Json.{Fields, string, field, end, merge}
use hermes_managed_network.Table.{lookup, upsert, select, order_by}
use hermes_managed_network.Schema.{ApprovalRequest, Store, Env, now, read_clock, draw_id}
use hermes_managed_network.Audit.{record_audit}

abbrev pub approval_key : ApprovalRequest → String
approval_key a = a.approval_id

unfoldable pub save_approval_request : Store → ApprovalRequest → Store
save_approval_request s approval = record s {
  approval_requests = upsert approval_key approval s.approval_requests;
}

unfoldable pub load_approval_request : Store → String → Option ApprovalRequest
load_approval_request s approval_id = lookup approval_key approval_id s.approval_requests

-- the clause WHERE status = ?, if a status is given
abbrev of_status : Option String → List ApprovalRequest → List ApprovalRequest
of_status none rows = rows
of_status (some status) rows = if status == "" then rows else select (λ a. a.status == status) rows

unfoldable pub list_approval_requests : Store → Option String → List ApprovalRequest
list_approval_requests s status =
    order_by (λ a b. leb b.created_at a.created_at) (of_status status s.approval_requests)

module _ (env : Env) where
  unfoldable pub create_approval_request :
      Store → String → String → String → String → String → Fields → Store × ApprovalRequest
  unfolding save_approval_request record_audit
  create_approval_request s subject_type subject_id action risk requested_by details =
      let approval : ApprovalRequest = record {
        approval_id = join "appr_" (env.hex12 s.draws);
        subject_type = subject_type;
        subject_id = subject_id;
        action = action;
        risk = risk;
        status = "pending";
        requested_by = requested_by;
        details = details;
        created_at = now env s;
        decided_by = "";
        decided_at = none;
      } in
      (
        record_audit env (save_approval_request (read_clock (draw_id s)) approval) "approval"
            subject_type approval.approval_id "approval/request" "pending"
            (merge
              (field "subject_id" (string subject_id)
                (field "action" (string action) (field "risk" (string risk) end)))
              details),
        approval,
      )
