-- ===== src/NetworkAcl/Rows.antt =====
-- The rows that an apply of an ACL leaves alone.
use hermes_managed_network.Prelude.{
  String, ◌≡◌, refl, Option, none, some, ◌==◌, ◌&&◌, not, inl, inr, Bool-cases,
}
use hermes_managed_network.Json.{ℤ}
use hermes_managed_network.Schema.{ApprovalRequest, Store, Env}
use hermes_managed_network.Audit.{record_audit, insert_audit_event}
use hermes_managed_network.ApprovalTable.{load_approval_request}
use hermes_managed_network.NetworkAcl.{
  Disk, Host, World, Run, ran, failed, timed_out, exists, applies, expected_of, proposed_of,
  audit_mismatch, audit_failed, audit_applied, after_verify, after_reload, reload_acl, write_acl,
  apply_texts, dispatch_acl, dispatch_approved_network_acl_apply,
}

module _ (env : Env) (host : Host) where
  module _ (s : Store) (approval : ApprovalRequest) (old_text new_text : String) where
    approvals-after_verify :
        (reload : Option ℤ) (x : Disk × Run)
        → (after_verify env host s approval old_text new_text reload x).0.store.approval_requests
          ≡ s.approval_requests
    unfolding after_verify audit_applied audit_failed record_audit insert_audit_event
    approvals-after_verify reload (d, timed_out) = refl
    approvals-after_verify reload (d, failed code error) = refl
    approvals-after_verify reload (d, ran verify) = refl

    approvals-after_reload :
        (x : Disk × Run)
        → (after_reload env host s approval old_text new_text x).0.store.approval_requests
          ≡ s.approval_requests
    unfolding after_reload audit_failed record_audit insert_audit_event
    approvals-after_reload (d, timed_out) = refl
    approvals-after_reload (d, failed code error) = refl
    approvals-after_reload (d, ran reload) = approvals-after_verify reload _

  module _ (w : World) where
    approvals-write_acl :
        (approval : ApprovalRequest) (old_text new_text : String) (m : Option Disk)
        → (write_acl env host w approval old_text new_text m).0.store.approval_requests
          ≡ w.store.approval_requests
    unfolding write_acl reload_acl
    approvals-write_acl approval old_text new_text none = refl
    approvals-write_acl approval old_text new_text (some d) =
        approvals-after_reload w.store approval old_text new_text _

    approvals-apply_texts :
        (approval : ApprovalRequest) (a b : Option String)
        → (apply_texts env host w approval a b).0.store.approval_requests
          ≡ w.store.approval_requests
    unfolding apply_texts audit_mismatch record_audit insert_audit_event
    approvals-apply_texts approval none b = refl
    approvals-apply_texts approval (some old_text) none = refl
    approvals-apply_texts approval (some old_text) (some new_text) =
        elim (Bool-cases (
          not (expected_of env host approval == "")
          && not (expected_of env host approval == host.sha256 old_text))) [
            | inl e ↦ rw e
            | inr e ↦ rw e (approvals-write_acl approval old_text new_text _)
          ]

    approvals-dispatch_acl :
        (o : Option ApprovalRequest)
        → (dispatch_acl env host w o).0.store.approval_requests ≡ w.store.approval_requests
    unfolding dispatch_acl
    approvals-dispatch_acl none = refl
    approvals-dispatch_acl (some approval) = elim (Bool-cases (applies approval)) [
      | inr e ↦ rw e
      | inl e ↦ elim (Bool-cases (exists (w.disk (proposed_of env host approval)))) [
        | inr k ↦ rw (e, k)
        | inl k ↦ rw (e, k) (approvals-apply_texts approval _ _)
      ]
    ]

    pub approvals-dispatch_approved_network_acl_apply :
        (approval_id : String)
        → (dispatch_approved_network_acl_apply env host w approval_id).0.store.approval_requests
          ≡ w.store.approval_requests
    unfolding dispatch_approved_network_acl_apply
    approvals-dispatch_approved_network_acl_apply approval_id =
        approvals-dispatch_acl (load_approval_request w.store approval_id)
