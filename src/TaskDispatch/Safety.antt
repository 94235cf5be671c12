-- ===== src/TaskDispatch/Safety.antt =====
-- The rows of the table tasks before and after a dispatch.
use hermes_managed_network.Prelude.{
  String, ◌≡◌, refl, sym, ap, ◌∙◌, ◌⊎◌, inl, inr, Option, none, some, List, [], ◌∷◌, ◌++◌, ◌==◌,
  Bool-cases, if◌then◌else◌,
}
use mathlib.Core.Option.{some-injective}
use hermes_managed_network.Json.{Fields}
use hermes_managed_network.Table.{insert, lookup}
use hermes_managed_network.Table.Laws.{insert-eq-some, lookup-append}
use hermes_managed_network.Schema.{ApprovalRequest, Task, Store, Env, Result, read_clock, draw_id}
use hermes_managed_network.Tasks.{task_key, load_task}
use hermes_managed_network.ApprovalTable.{load_approval_request}
use hermes_managed_network.TaskDispatch.{
  dispatch_failed, requested_task, record_dispatch, dispatch_approved_task_request,
}
use hermes_managed_network.TaskDispatch.Outcomes.{Outcome, IsDispatchable, dispatch_Outcome}

abbrev pub or_new : Task → String → Option Task → Option Task
or_new t w (some x) = some x
or_new t w none = if t.task_id == w then some t else none

or_new_append :
    (t : Task) (w : String) (rows : List Task)
    → lookup task_key w (rows ++ t ∷ []) ≡ or_new t w (lookup task_key w rows)
or_new_append t w rows = lookup-append task_key w t rows ∙ of_row (lookup task_key w rows)
  where
    of_row :
        (o : Option Task)
        → elim o [ some x ↦ some x | none ↦ (if t.task_id == w then some t else none) ]
          ≡ or_new t w o
    of_row none = refl
    of_row (some x) = refl

module _ (env : Env) where
  load-dispatch_failed :
      (s : Store) (a : ApprovalRequest) (d : Fields) (w : String)
      → load_task (dispatch_failed env s a d) w ≡ load_task s w
  unfolding load_task dispatch_failed
  load-dispatch_failed s a d w = refl

  load-record_dispatch :
      (s : Store) (a : ApprovalRequest) (t : Task) (w : String)
      → load_task (record_dispatch env s a t) w ≡ load_task s w
  unfolding load_task record_dispatch
  load-record_dispatch s a t w = refl

  pub load-created :
      (s : Store) (a : ApprovalRequest) (t : Task) (tasks' : List Task) (w : String)
      → insert task_key t s.tasks ≡ some tasks'
      → load_task (record_dispatch env (record (read_clock (draw_id s)) { tasks = tasks' }) a t) w
        ≡ or_new t w (load_task s w)
  unfolding load_task
  load-created s a t tasks' w free =
      load-record_dispatch (record (read_clock (draw_id s)) { tasks = tasks' }) a t w
      ∙ ap (λ l. lookup task_key w l) (insert-eq-some task_key t s.tasks tasks' free).1
      ∙ or_new_append t w s.tasks

  -- what a dispatch does to the row of a task
  abbrev Rows : Store → Option ApprovalRequest → Store → String → Type 0
  Rows s o s' w =
      (load_task s' w ≡ load_task s w)
      ⊎ ((a : ApprovalRequest) × (o ≡ some a)
          × IsDispatchable env s a
          × (load_task s' w ≡ or_new (requested_task env s a) w (load_task s w)))

  Rows-of_Outcome :
      (s : Store) (o : Option ApprovalRequest) (r : Store × Result (Option Task)) (w : String)
      → Outcome env s o r
      → Rows s o r.0 w
  Rows-of_Outcome s o r w (Outcome.skipped e) = inl (ap (λ x. load_task x.0 w) e)
  Rows-of_Outcome s o r w (Outcome.again a p q h e) = inl (ap (λ x. load_task x.0 w) e)
  Rows-of_Outcome s o r w (Outcome.incomplete a d p e) =
      inl (ap (λ x. load_task x.0 w) e ∙ load-dispatch_failed s a d w)
  Rows-of_Outcome s o r w (Outcome.blocked a d p e) = inl (
      ap (λ x. load_task x.0 w) e
      ∙ load-dispatch_failed (read_clock (draw_id s)) a d w
      ∙ (unfold load_task in refl))
  Rows-of_Outcome s o r w (Outcome.collided e) =
      inl (ap (λ x. load_task x.0 w) e ∙ (unfold load_task in refl))
  Rows-of_Outcome s o r w (Outcome.created a tasks' p can free e) = inr (
    a,
    p,
    can,
    ap (λ x. load_task x.0 w) e ∙ load-created s a (requested_task env s a) tasks' w free,
  )

  -- A task that a dispatch adds is the one that the request asks for; the request is approved, asks to
  -- run a task, names a node and a command and was not dispatched before, and its node is managed and
  -- not blocked by the facts of its last heartbeat.
  pub dispatch_adds_approved :
      (s : Store) (approval_id w : String) (t : Task)
      → load_task s w ≡ none
      → load_task (dispatch_approved_task_request env s approval_id).0 w ≡ some t
      → (a : ApprovalRequest) × (load_approval_request s approval_id ≡ some a)
        × IsDispatchable env s a
        × (t ≡ requested_task env s a)
  dispatch_adds_approved s approval_id w t free there =
      elim (Rows-of_Outcome s (load_approval_request s approval_id)
        (dispatch_approved_task_request env s approval_id) w (dispatch_Outcome env s approval_id)) [
          | inl e ↦ cc
          | inr (a, p, can, e) ↦ (a, p, can, added a (sym there ∙ e ∙ rw free))
        ]
    where
      added :
          (a : ApprovalRequest)
          → some t ≡ (
              if (requested_task env s a).task_id == w then some (requested_task env s a) else none)
          → t ≡ requested_task env s a
      added a e = elim (Bool-cases ((requested_task env s a).task_id == w)) [
        | inl h ↦ some-injective t (requested_task env s a) (rw h at e)
        | inr h ↦ let bad : some t ≡ none = rw h at e in cc
      ]

  -- A dispatch leaves every task that is there as it is.
  pub dispatch_keeps_tasks :
      (s : Store) (approval_id w : String) (t : Task)
      → load_task s w ≡ some t
      → load_task (dispatch_approved_task_request env s approval_id).0 w ≡ some t
  dispatch_keeps_tasks s approval_id w t there =
      elim (Rows-of_Outcome s (load_approval_request s approval_id)
        (dispatch_approved_task_request env s approval_id) w (dispatch_Outcome env s approval_id)) [
          | inl e ↦ e ∙ there
          | inr (a, p, can, e) ↦ e ∙ rw there
        ]
