-- ===== src/Examples/DecisionRuns.antt =====
-- Runs of a decision on an approval request.
use hermes_managed_network.Table.{lookup}
use hermes_managed_network.Prelude.{◌≡◌, refl, some}
use hermes_managed_network.Schema.{Store}
use hermes_managed_network.ApprovalTable.{load_approval_request}
use hermes_managed_network.Approvals.{resolve_approval_request}
use hermes_managed_network.Approvals.Decision.{decision_on, resolve_records_decision}
use hermes_managed_network.Approvals.Rejection.{
  SameWork, second_decision_changes_nothing, rejection_starts_nothing,
}
use hermes_managed_network.Examples.{host, asked, asked_store}

abbrev decided_store : Store
decided_store = (resolve_approval_request host asked_store "appr_1" "approved" "admin").0

holds_asked : load_approval_request asked_store "appr_1" ≡ some asked
unfolding load_approval_request lookup
holds_asked = refl

resolve_records_decision_example : decision_on decided_store "appr_1" ≡ some ("approved", "admin")
resolve_records_decision_example =
    resolve_records_decision host asked_store "appr_1" "approved" "admin" asked refl holds_asked
      refl

second_decision_changes_nothing_example :
    (resolve_approval_request host decided_store "appr_1" "rejected" "other").0 ≡ decided_store
second_decision_changes_nothing_example =
    second_decision_changes_nothing host asked_store "appr_1" "approved" "admin" "rejected" "other"
      asked refl holds_asked refl

rejection_starts_nothing_example :
    SameWork host asked_store
      (resolve_approval_request host asked_store "appr_1" "rejected" "admin").0
rejection_starts_nothing_example =
    rejection_starts_nothing host asked_store "appr_1" "rejected" "admin" refl
