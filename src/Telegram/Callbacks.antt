-- ===== src/Telegram/Callbacks.antt =====
-- What a callback of Telegram leaves in the store.
use hermes_managed_network.Prelude.{
  String, ◌≡◌, ◌≢◌, refl, ◌∙◌, true, false, Option, none, some, ◌==◌, inl, inr, Bool-cases, eq→path,
  path→eq,
}
use hermes_managed_network.Schema.{ApprovalRequest, Env, Result, ok}
use hermes_managed_network.ApprovalTable.{load_approval_request}
use hermes_managed_network.Approvals.{is_decision, resolve_approval_request}
use hermes_managed_network.Approvals.Decision.{decision_on, own_id, resolve_records_decision}
use hermes_managed_network.Approvals.Rejection.{SameWork, rejection_starts_nothing}
use hermes_managed_network.NetworkAcl.{Host, World}
use hermes_managed_network.Cards.{Callback, parse_approval_callback}
use hermes_managed_network.Telegram.{
  TelegramApprovalCallbackResult, target_status, after_resolve, handle_found, handle_parsed,
  handle_telegram_approval_callback,
}
use hermes_managed_network.Telegram.Dispatches.{decision-after_resolve, world-rejected}

-- why a callback is not acted on
pub data Ignored (w : World) (o : Option Callback) : Type 0 where
  unread : o ≡ none → Ignored w o
  unknown :
      (c : Callback) → o ≡ some c → load_approval_request w.store c.approval_id ≡ none → Ignored w o
  settled :
      (c : Callback) (a : ApprovalRequest)
      → o ≡ some c
      → load_approval_request w.store c.approval_id ≡ some a
      → a.status ≢ "pending"
      → Ignored w o

module _ (env : Env) where
  -- what a callback that is acted on leaves behind
  pub record Acted (w : World) (o : Option Callback) (decided_by : String) (w' : World)
      : Type 0 where
    pub callback : Callback
    pub approval : ApprovalRequest
    pub read : o ≡ some callback
    pub there : load_approval_request w.store callback.approval_id ≡ some approval
    pub waiting : approval.status ≡ "pending"
    pub decided :
        decision_on w'.store callback.approval_id
        ≡ some (target_status callback.decision, decided_by)
    pub harmless :
        callback.decision ≢ "approve" → (w'.disk ≡ w.disk) × SameWork env w.store w'.store

  pub data Handled (w : World) (o : Option Callback) (decided_by : String)
      (r : World × Result TelegramApprovalCallbackResult) : Type 0 where
    ignored :
        (answer : TelegramApprovalCallbackResult)
        → Ignored w o
        → r ≡ (w, ok answer)
        → answer.is_ok ≡ false
        → Handled w o decided_by r
    acted : Acted w o decided_by r.0 → Handled w o decided_by r

differs : (s t : String) → (s == t) ≡ false → s ≢ t
differs s t e p = cc (path→eq s t p)

target_valid : (d : String) → is_decision (target_status d) ≡ true
target_valid d = elim (Bool-cases (d == "approve")) [ inl e ↦ rw e | inr e ↦ rw e ]

target_test : (d : String) → (target_status d == "approved") ≡ (d == "approve")
target_test d = elim (Bool-cases (d == "approve")) [ inl e ↦ rw e | inr e ↦ rw e ]

module _ (env : Env) (host : Host) where
  -- what a decision that is no approval starts
  harmless_of :
      (w : World) (a : ApprovalRequest) (d decided_by : String)
      → d ≢ "approve"
      → let w' =
          (after_resolve env host w
            (target_status d == "approved")
            a
            (resolve_approval_request env w.store a.approval_id (target_status d) decided_by)).0 in
        (w'.disk ≡ w.disk) × SameWork env w.store w'.store
  harmless_of w a d decided_by other = elim (Bool-cases (d == "approve")) [
    | inl e ↦ absurd (other (eq→path d "approve" e))
    | inr e ↦
        rw
          (
            target_test d,
            e,
            world-rejected env host w a
                (resolve_approval_request env w.store a.approval_id "rejected" decided_by),
          )
          (refl, rejection_starts_nothing env w.store a.approval_id "rejected" decided_by refl)
  ]

  resolved_decision :
      (w : World) (c : Callback) (a : ApprovalRequest) (decided_by : String)
      → load_approval_request w.store c.approval_id ≡ some a
      → a.status ≡ "pending"
      → decision_on
          (resolve_approval_request env w.store a.approval_id
            (target_status c.decision)
            decided_by).0
          c.approval_id
        ≡ some (target_status c.decision, decided_by)
  resolved_decision w c a decided_by e waiting = rw (own_id env w.store c.approval_id a e) (
      resolve_records_decision env w.store c.approval_id (target_status c.decision) decided_by a
        (target_valid c.decision) e waiting)

  of_found :
      (w : World) (c : Callback) (decided_by : String) (o : Option ApprovalRequest)
      → load_approval_request w.store c.approval_id ≡ o
      → Handled env w (some c) decided_by (handle_found env host w c decided_by o)
  unfolding handle_found
  of_found w c decided_by none e = ignored _ (unknown c refl e) refl refl
  of_found w c decided_by (some a) e = elim (Bool-cases (a.status == "pending")) [
    | inr k ↦ rw k (ignored _ (settled c a refl e (differs a.status "pending" k)) refl refl)
    | inl k ↦
        let waiting : a.status ≡ "pending" = eq→path a.status "pending" k in
        rw k (
          acted (record {
            callback = c;
            approval = a;
            read = refl;
            there = e;
            waiting = waiting;
            decided =
                decision-after_resolve env host w (target_status c.decision == "approved") a
                  c.approval_id _
                ∙ resolved_decision w c a decided_by e waiting;
            harmless = harmless_of w a c.decision decided_by;
          }))
  ]

  of_parsed :
      (w : World) (o : Option Callback) (decided_by : String)
      → Handled env w o decided_by (handle_parsed env host w o decided_by)
  unfolding handle_parsed
  of_parsed w none decided_by = ignored _ (unread refl) refl refl
  of_parsed w (some c) decided_by =
      of_found w c decided_by (load_approval_request w.store c.approval_id) refl

  -- A callback of Telegram that is not read, or whose approval is not stored or not pending, changes
  -- nothing and is answered with a failure. Any other one leaves the approval with the decision of the
  -- button and the name of who decided, however the dispatches after it end, and where the button is
  -- not the one that approves, it changes no file, no task, no node component and no component run.
  pub handle-Handled :
      (w : World) (callback_data decided_by : String)
      → Handled env w
          (parse_approval_callback callback_data)
          decided_by
          (handle_telegram_approval_callback env host w callback_data decided_by)
  unfolding handle_telegram_approval_callback
  handle-Handled w callback_data decided_by =
      of_parsed w (parse_approval_callback callback_data) decided_by
