-- ===== src/TaskDispatch/Once.antt =====
-- The second dispatch of a request, after the first has created its task.
use Prim.Native.String.{◌++◌ as join}
use mathlib.Core.Path.{subst}
use package.text.Mathlib.TextLemmas.{append-eq-nil_iff}
use hermes_managed_network.Prelude.{
  String, ◌≡◌, refl, sym, ap, ◌∙◌, true, false, some, List, ◌==◌, arith, eq_iff, eq_refl, eq→path,
  Bool-cases, inl, inr,
}
use hermes_managed_network.Json.{string, put, get-put, is_truthy}
use hermes_managed_network.Table.{insert}
use hermes_managed_network.Table.Laws.{insert-eq-some, lookup-update}
use hermes_managed_network.Schema.{ApprovalRequest, Task, Store, Env, ok, read_clock, draw_id, str}
use hermes_managed_network.Tasks.{task_key, load_task}
use hermes_managed_network.ApprovalTable.{approval_key, load_approval_request}
use hermes_managed_network.TaskDispatch.{
  has, text_at, requested_task, record_dispatch, dispatch_loaded, dispatch_approved_task_request,
}
use hermes_managed_network.TaskDispatch.Outcomes.{
  Outcome, IsApproved, IsDispatchable, dispatch_Outcome,
}
use hermes_managed_network.TaskDispatch.Safety.{load-created}

-- An id has the prefix "task_", so it is not empty.
task_id-ne-empty : (h : String) → (join "task_" h == "") ≡ false
task_id-ne-empty h = elim (Bool-cases (join "task_" h == "")) [
  | inl e ↦
      let p : ◌≡◌ {A = String} "task_" "" =
        (append-eq-nil_iff.0 (eq→path (join "task_" h) "" e)).0 in
      absurd (ground (arith, eq_iff "task_" ""))
  | inr e ↦ e
]

-- The request with the id of the task that was created for it.
abbrev with_task : Task → ApprovalRequest → ApprovalRequest
with_task t a = record a { details = put "dispatched_task_id" (string t.task_id) a.details }

module _ (env : Env) where
  has-with_task :
      (s : Store) (a : ApprovalRequest)
      → has "dispatched_task_id" (with_task (requested_task env s a) a).details ≡ true
  unfolding requested_task is_truthy
  has-with_task s a = rw (get-put, task_id-ne-empty (env.hex12 s.draws))

  text_at-with_task :
      (t : Task) (a : ApprovalRequest)
      → text_at env "dispatched_task_id" (with_task t a).details ≡ t.task_id
  unfolding str
  text_at-with_task t a = rw get-put

  load-with_task :
      (s : Store) (a : ApprovalRequest) (t : Task) (tasks' : List Task) (id : String)
      → load_approval_request s id ≡ some a
      → load_approval_request
          (record_dispatch env (record (read_clock (draw_id s)) { tasks = tasks' }) a t)
          id
        ≡ some (with_task t a)
  unfolding load_approval_request record_dispatch
  load-with_task s a t tasks' id there =
      lookup-update approval_key id (λ x. x.approval_id == a.approval_id)
        (λ x. record x { details = put "dispatched_task_id" (string t.task_id) a.details })
        (λ _. refl) s.approval_requests
      ∙ rw (there, eq_refl)

  again_of :
      (s : Store) (a : ApprovalRequest)
      → IsApproved a
      → has "dispatched_task_id" a.details ≡ true
      → dispatch_loaded env s (some a)
        ≡ (s, ok (load_task s (text_at env "dispatched_task_id" a.details)))
  unfolding dispatch_loaded
  again_of s a ready e = rw (ready.approved, ready.of_task, ready.to_run, e)

  load_own :
      (s : Store) (a : ApprovalRequest) (t : Task) (tasks' : List Task)
      → insert task_key t s.tasks ≡ some tasks'
      → load_task
          (record_dispatch env (record (read_clock (draw_id s)) { tasks = tasks' }) a t)
          t.task_id
        ≡ some t
  load_own s a t tasks' free =
      load-created env s a t tasks' t.task_id free
      ∙ unfold load_task in rw ((insert-eq-some task_key t s.tasks tasks' free).0, eq_refl)

  once_created :
      (s : Store) (id : String) (a : ApprovalRequest) (tasks' : List Task)
      → load_approval_request s id ≡ some a
      → IsDispatchable env s a
      → insert task_key (requested_task env s a) s.tasks ≡ some tasks'
      → let s' =
          record_dispatch env
            (record (read_clock (draw_id s)) { tasks = tasks' })
            a
            (requested_task env s a) in
        dispatch_approved_task_request env s' id ≡ (s', ok (some (requested_task env s a)))
  unfolding dispatch_approved_task_request
  once_created s id a tasks' there can free =
      let t = requested_task env s a in
      let s' = record_dispatch env (record (read_clock (draw_id s)) { tasks = tasks' }) a t in
      ap (λ o. dispatch_loaded env s' o) (load-with_task s a t tasks' id there)
      ∙ again_of s' (with_task t a)
          (record {
            approved = can.approval.approved;
            of_task = can.approval.of_task;
            to_run = can.approval.to_run;
          })
          (has-with_task s a)
      ∙ ap (λ o. (s', ok o))
          (ap (λ k. load_task s' k) (text_at-with_task t a) ∙ load_own s a t tasks' free)

  same_again :
      (s : Store) (id : String) (t : Task) (s' : Store)
      → (dispatch_approved_task_request env s id).0 ≡ s'
      → dispatch_approved_task_request env s' id ≡ (s', ok (some t))
      → dispatch_approved_task_request env (dispatch_approved_task_request env s id).0 id
        ≡ ((dispatch_approved_task_request env s id).0, ok (some t))
  same_again s id t s' e h =
      subst (λ z. dispatch_approved_task_request env z id ≡ (z, ok (some t))) (sym e) h

  once_of_Outcome :
      (s : Store) (id : String) (t : Task)
      → Outcome env s (load_approval_request s id) (dispatch_approved_task_request env s id)
      → (dispatch_approved_task_request env s id).1 ≡ ok (some t)
      → dispatch_approved_task_request env (dispatch_approved_task_request env s id).0 id
        ≡ ((dispatch_approved_task_request env s id).0, ok (some t))
  once_of_Outcome s id t (Outcome.skipped e) h = cc (ap (λ r. r.1) e)
  once_of_Outcome s id t (Outcome.incomplete a d p e) h = cc (ap (λ r. r.1) e)
  once_of_Outcome s id t (Outcome.blocked a d p e) h = cc (ap (λ r. r.1) e)
  once_of_Outcome s id t (Outcome.collided e) h = cc (ap (λ r. r.1) e)
  once_of_Outcome s id t (Outcome.again a p q x e) h =
      same_again s id t s (ap (λ r. r.0) e) (e ∙ ap (λ o. (s, o)) (sym (ap (λ r. r.1) e) ∙ h))
  once_of_Outcome s id t (Outcome.created a tasks' p can free e) h =
      let s' =
        record_dispatch env (record (read_clock (draw_id s)) { tasks = tasks' }) a
          (requested_task env s a) in
      same_again s id t s' (ap (λ r. r.0) e)
        (once_created s id a tasks' p can free ∙ ap (λ o. (s', o)) (sym (ap (λ r. r.1) e) ∙ h))

  -- When a dispatch has returned a task, dispatching the same request again returns that task and
  -- leaves the store exactly as it is.
  pub dispatch_once :
      (s : Store) (approval_id : String) (t : Task)
      → (dispatch_approved_task_request env s approval_id).1 ≡ ok (some t)
      → dispatch_approved_task_request env
          (dispatch_approved_task_request env s approval_id).0
          approval_id
        ≡ ((dispatch_approved_task_request env s approval_id).0, ok (some t))
  dispatch_once s approval_id t h =
      once_of_Outcome s approval_id t (dispatch_Outcome env s approval_id) h
