-- ===== src/Api/Decide/Decision.antt =====
-- How a decision over HTTP ends.
use hermes_managed_network.Prelude.{
  String, ◌≡◌, ◌≢◌, refl, ◌∙◌, Bool, true, Option, none, some, ◌==◌, inl, inr, Bool-cases, eq→path,
  path→eq,
}
use hermes_managed_network.Schema.{ApprovalRequest, Store, Env, Result, ok, raised}
use hermes_managed_network.ApprovalTable.{load_approval_request}
use hermes_managed_network.Approvals.{is_decision}
use hermes_managed_network.Approvals.Decision.{decision_on, resolve_records_decision}
use hermes_managed_network.NetworkAcl.{Host, World}
use hermes_managed_network.Telegram.{
  Dispatched, dispatched, no_task, no_component, no_acl, acl_failed, dispatch_raised, with_store,
  dispatch_resolved,
}
use hermes_managed_network.Telegram.Dispatches.{decision-dispatch_resolved}
use hermes_managed_network.Api.{Reply, http}
use hermes_managed_network.Api.Decide.{
  ApprovalDecisionRequest, ApprovalDecisionResponse, decision_reply, decide_resolved,
  decide_existing, resolve_approval,
}

-- A decision is refused and changes nothing, or it is kept.
pub data Decided (w : World) (approval_id status : String) (request : ApprovalDecisionRequest)
    (r : World × Reply ApprovalDecisionResponse) : Type 0 where
  missing :
      load_approval_request w.store approval_id ≡ none
      → r ≡ (w, http 404 "approval not found")
      → Decided w approval_id status request r
  settled :
      (a : ApprovalRequest) (detail : String)
      → load_approval_request w.store approval_id ≡ some a
      → a.status ≢ "pending"
      → r ≡ (w, http 409 detail)
      → Decided w approval_id status request r
  kept :
      (a : ApprovalRequest)
      → load_approval_request w.store approval_id ≡ some a
      → a.status ≡ "pending"
      → decision_on r.0.store approval_id ≡ some (status, request.decided_by)
      → Decided w approval_id status request r

module _ (env : Env) (host : Host) where
  world-decision_reply :
      (a : ApprovalRequest) (x : World × Dispatched) → (decision_reply env host a x).0 ≡ x.0
  unfolding decision_reply
  world-decision_reply a (w, dispatched t) = refl
  world-decision_reply a (w, no_task) = refl
  world-decision_reply a (w, no_component) = refl
  world-decision_reply a (w, no_acl) = refl
  world-decision_reply a (w, acl_failed text) = refl
  world-decision_reply a (w, dispatch_raised e) = refl

  decision-decide_resolved :
      (w : World) (b : Bool) (id : String) (r : Store × Result (Option ApprovalRequest))
      → decision_on (decide_resolved env host w b r).0.store id ≡ decision_on r.0 id
  unfolding decide_resolved
  decision-decide_resolved w b id (s, raised e) = refl
  decision-decide_resolved w b id (s, ok none) = refl
  decision-decide_resolved w b id (s, ok (some a)) =
      rw (world-decision_reply a (dispatch_resolved env host (with_store w s) b a))
        (decision-dispatch_resolved env host (with_store w s) b a id)

  module _ (w : World) (approval_id status : String) (request : ApprovalDecisionRequest)
      (valid : is_decision status ≡ true) where
    of_existing :
        (o : Option ApprovalRequest)
        → load_approval_request w.store approval_id ≡ o
        → Decided w approval_id status request
            (decide_existing env host w approval_id status request o)
    unfolding decide_existing
    of_existing none e = missing e refl
    of_existing (some a) e = elim (Bool-cases (a.status == "pending")) [
      | inr k ↦ rw k (settled a _ e (λ p. cc (path→eq a.status "pending" p)) refl)
      | inl k ↦
          let waiting : a.status ≡ "pending" = eq→path a.status "pending" k in
          rw k (
            kept a e waiting (
              decision-decide_resolved w (status == "approved") approval_id _
              ∙ resolve_records_decision env w.store approval_id status request.decided_by a valid e
                  waiting))
    ]

    -- A decision of "approved" or "rejected" over HTTP on an approval that is not stored gives status
    -- 404, and on one that is not pending status 409, and neither changes anything; on a pending one it
    -- is stored with the name of who decided, however the dispatches after it end.
    pub resolve_approval-Decided :
        Decided w approval_id status request
          (resolve_approval env host w approval_id status request)
    unfolding resolve_approval
    resolve_approval-Decided = of_existing (load_approval_request w.store approval_id) refl
