-- ===== src/Orchestrator/Runs.antt =====
-- Runs of the orchestrator: its operations in any order.
use hermes_managed_network.Prelude.{
  ℕ, String, ◌≡◌, refl, sym, true, false, Option, none, some, List, ◌==◌, arith, eq→path,
}
use mathlib.Core.Path.{subst}
use hermes_managed_network.Json.{ℤ}
use hermes_managed_network.Table.{IsKeyed, insert, update}
use hermes_managed_network.Table.Keyed.{append-IsKeyed, update-IsKeyed}
use hermes_managed_network.Table.Laws.{insert-eq-some}
use hermes_managed_network.Schema.{Store, Env, now, read_clock, draw_id}
use hermes_managed_network.Audit.{record_audit, insert_audit_event}
use hermes_managed_network.Orchestrator.{
  OrchestratorTask, Assignment, Board, Adapter, task_key, on_store, is_ready, next_ready,
  leased_rows, new_task, enqueued, enqueue, audit,
}
use hermes_managed_network.Orchestrator.Workers.{register_worker, update_worker}
use hermes_managed_network.Orchestrator.Tick.{swept, tick}
use hermes_managed_network.Orchestrator.Sweep.{sweep_keeps, swept-IsKeyed}
use hermes_managed_network.Orchestrator.Priority.{next_is_ready, next_is_there}
use hermes_managed_network.Orchestrator.Leases.{
  OneLease, expire_lease-OneLease, update-OneLease, lease-OneLease, append-OneLease,
}
use hermes_managed_network.Orchestrator.Outcomes.{
  Ticked, collided, no_task, no_worker, gave_up, will_retry, leases, tick-Ticked, leased_row,
  paused_row, retried_row,
}

-- unique task ids, and one lease for each task that is leased
abbrev pub Sound : List OrchestratorTask → List Assignment → Type 0
Sound tasks assignments = IsKeyed task_key tasks × OneLease tasks assignments

abbrev pub IsSound : Board → Type 0
IsSound b = Sound b.tasks b.assignments

queued_not_leased : (status : String) → (status == "queued") ≡ true → (status == "leased") ≡ false
queued_not_leased status h = rw (eq→path status "queued" h)

module _ (env : Env) where
  -- one call; `other` is any change of the other tables of the store
  pub data Step : Board → Board → Type 0 where
    enqueues :
        (b : Board) (title scope risk : String) (priority : ℤ) (hint source : String)
        → Step b (enqueue env b title scope risk priority hint source).0
    registers :
        (b : Board) (id transport status : String) (labels : List String)
        → Step b (register_worker env b id transport status labels)
    updates :
        (b : Board) (id status : String) (transport : Option String) (labels : Option (List String))
        → Step b (update_worker env b id status transport labels)
    ticks :
        (b : Board) (adapter : Adapter) (max_retries timeout : ℕ)
        → Step b (tick env b adapter max_retries timeout).0
    other : (b : Board) (s : Store) → Step b (record b { store = s })

  -- the boards that come of a sequence of calls
  pub data Reach (b : Board) : Board → Type 0 where
    here : Reach b b
    then_step : {b' b'' : Board} → Reach b b' → Step b' b'' → Reach b b''

  swept-IsSound : (b : Board) (timeout : ℕ) → IsSound b → IsSound (swept env b timeout)
  swept-IsSound b timeout h = (
    swept-IsKeyed env b timeout h.0,
    sweep_keeps (λ x. OneLease x.tasks x.assignments) (now env b.store) timeout
        (λ task_id x k. expire_lease-OneLease (now env b.store) task_id x k) (leased_rows b)
        (on_store b read_clock) h.1,
  )

  not_yet : (t : OrchestratorTask) → is_ready t ≡ true → (t.status == "leased") ≡ false
  not_yet t h = queued_not_leased t.status (ground arith)

  module _ (b0 : Board) (at : ℕ) (adapter : Adapter) (max_retries : ℕ) (b : Board) (h : IsSound b)
      (h0 : IsSound b0) where
    -- the tables after a change of the chosen task
    changed-Sound :
        (f : OrchestratorTask → OrchestratorTask) (task : OrchestratorTask)
        → ((x : OrchestratorTask) → (f x).task_id ≡ x.task_id)
        → next_ready b ≡ some task
        → ((f task).status == "leased") ≡ false
        → Sound (update (λ x. x.task_id == task.task_id) f b.tasks) b.assignments
    changed-Sound f task same_key p after = (
      update-IsKeyed task_key (λ x. x.task_id == task.task_id) f same_key b.tasks h.0,
      update-OneLease b.tasks b.assignments h.1 f task same_key (next_is_there b task p h.0)
          (not_yet task (next_is_ready b task p)) after,
    )

    Ticked-IsSound : (r : _) → Ticked env b0 at adapter max_retries b r → IsSound r.0
    Ticked-IsSound r (collided x k) = subst (λ y. Sound y.0 y.2) (sym x) h0
    Ticked-IsSound r (no_task next p k) = rw k h
    Ticked-IsSound r (no_worker task reason next p q k) = rw k h
    Ticked-IsSound r (gave_up task worker error p q e m x next k) =
        subst (λ y. Sound y.0 y.2) (sym x) (changed-Sound (paused_row _ at) task (λ _. refl) p refl)
    Ticked-IsSound r (will_retry task worker error p q e m x next k) =
        subst (λ y. Sound y.0 y.2) (sym x)
          (changed-Sound (retried_row _ at) task (λ _. refl) p
            (not_yet task (next_is_ready b task p)))
    Ticked-IsSound r (leases task worker p q e x k) =
        subst (λ y. Sound y.0 y.2) (sym x)
          (
            update-IsKeyed task_key (λ y. y.task_id == task.task_id) (leased_row at) (λ _. refl)
                b.tasks h.0,
            lease-OneLease b.tasks b.assignments h.1 (leased_row at) task _ (λ _. refl)
                (next_is_there b task p h.0) (not_yet task (next_is_ready b task p)) refl refl refl,
          )

  enqueued-IsSound :
      (b : Board) (t : OrchestratorTask) (o : Option (List OrchestratorTask))
      → (t.status == "leased") ≡ false
      → insert task_key t b.tasks ≡ o
      → IsSound b
      → IsSound (enqueued env b t o).0
  unfolding enqueued audit record_audit insert_audit_event
  enqueued-IsSound b t none waits e h = h
  enqueued-IsSound b t (some rows) waits e h =
      let (free, same) = insert-eq-some task_key t b.tasks rows e in
      subst (λ l. Sound l b.assignments) (sym same)
        (
          append-IsKeyed task_key t b.tasks free h.0,
          append-OneLease b.tasks b.assignments h.1 t waits,
        )

  pub Step-IsSound : {b b' : Board} → Step b b' → IsSound b → IsSound b'
  Step-IsSound (enqueues b title scope risk priority hint source) h =
      unfold enqueue in
      enqueued-IsSound (on_store b (λ s. read_clock (draw_id s)))
        (new_task env b title scope risk priority hint source) _ refl refl h
  Step-IsSound (registers b id transport status labels) h = unfold register_worker in h
  Step-IsSound (updates b id status transport labels) h = unfold update_worker in h
  Step-IsSound (ticks b adapter max_retries timeout) h =
      Ticked-IsSound (on_store b read_clock) (now env b.store) adapter max_retries
        (swept env b timeout) (swept-IsSound b timeout h) h (tick env b adapter max_retries timeout)
        (tick-Ticked env b adapter max_retries timeout)
  Step-IsSound (other b s) h = h

  -- Where the task ids are unique and each task that is leased has exactly one assignment in the status
  -- leased, and no other id has one, this stays so by any sequence of enqueues, worker registrations
  -- and updates, ticks with any adapter, limit and timeout, and changes of the other tables.
  pub Reach-IsSound : {b b' : Board} → Reach b b' → IsSound b → IsSound b'
  Reach-IsSound here h = h
  Reach-IsSound (then_step r step) h = Step-IsSound step (Reach-IsSound r h)
