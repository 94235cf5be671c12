-- ===== src/Orchestrator/Leases.antt =====
-- The leases of the orchestrator's tasks under its operations.
use mathlib.Core.Option
use hermes_managed_network.Prelude.{
  ℕ, suc, ◌+◌, String, ◌≡◌, refl, sym, ◌∙◌, Bool, true, false, Option, none, some, List, [], ◌∷◌,
  ◌++◌, ◌==◌, ◌&&◌, arith, eq_iff, eq→path, inl, inr, Bool-cases, if◌then◌else◌,
}
use hermes_managed_network.Table.{lookup, update, rowcount}
use hermes_managed_network.Table.Laws.{lookup-update, lookup-append, key-lookup}
use hermes_managed_network.Orchestrator.{
  OrchestratorTask, Assignment, Board, task_key, is_leased, expire_lease,
}

-- an assignment that leases the task with an id
abbrev pub leases_task : String → Assignment → Bool
leases_task id a = a.task_id == id && a.status == "leased"

-- A task that is leased has exactly one lease, and any other id has none.
abbrev pub OneLease : List OrchestratorTask → List Assignment → Type 0
OneLease tasks assignments =
    (id : String)
    → rowcount (leases_task id) assignments
      ≡ (if is_leased (lookup task_key id tasks) then 1 else 0)

rowcount-append :
    (p : Assignment → Bool) (rows : List Assignment) (a : Assignment)
    → rowcount p (rows ++ a ∷ []) ≡ rowcount p rows + (if p a then 1 else 0)
unfolding rowcount
rowcount-append p [] a = ground arith
rowcount-append p (x ∷ xs) a = ground (arith, rowcount-append p xs a)

abbrev pub expired_row : ℕ → Assignment → Assignment
expired_row at a = record a { status = "expired"; updated_at = at }

no_lease :
    (here leased : Bool) (n : ℕ)
    → (if here && false then suc (if here then 0 else n) else (if here then 0 else n))
      ≡ (if here then 0 else (if here && leased then suc n else n))
no_lease true leased n = refl
no_lease false leased n = refl

rowcount-expired :
    (id k : String) (at : ℕ) (rows : List Assignment)
    → rowcount (leases_task id) (update (λ a. a.task_id == k) (expired_row at) rows)
      ≡ (if k == id then 0 else rowcount (leases_task id) rows)
unfolding rowcount update
rowcount-expired id k at [] = ground arith
rowcount-expired id k at (a ∷ rows) = elim (Bool-cases (a.task_id == k)) [
  | inl e ↦
      rw (e, eq→path a.task_id k e, rowcount-expired id k at rows)
        (no_lease (k == id) (a.status == "leased") (rowcount (leases_task id) rows))
  | inr e ↦
      rw (e, rowcount-expired id k at rows)
        (ground (arith, eq_iff a.task_id k, eq_iff a.task_id id, eq_iff k id))
]

-- the row of one task, changed
module _ (k : String) (f : OrchestratorTask → OrchestratorTask)
    (same_key : (x : OrchestratorTask) → (f x).task_id ≡ x.task_id) where
  changed :
      (id : String) (o : Option OrchestratorTask)
      → ((x : OrchestratorTask) → o ≡ some x → x.task_id ≡ id)
      → Option.map (λ x. if x.task_id == k then f x else x) o
        ≡ (if k == id then Option.map f o else o)
  changed id none under = ground arith
  changed id (some x) under = ground (arith, under x refl, eq_iff x.task_id k, eq_iff k id)

  pub lookup-row :
      (id : String) (rows : List OrchestratorTask)
      → lookup task_key id (update (λ x. x.task_id == k) f rows)
        ≡ (if k == id then Option.map f (lookup task_key id rows) else lookup task_key id rows)
  lookup-row id rows =
      lookup-update task_key id (λ x. x.task_id == k) f same_key rows
      ∙ changed id (lookup task_key id rows) (λ x e. key-lookup task_key id rows x e)

abbrev pub requeued_row : ℕ → OrchestratorTask → OrchestratorTask
requeued_row at t = record t { status = "queued"; updated_at = at }

-- Giving a lease back leaves the task without one.
not_leased :
    (at : ℕ) (o : Option OrchestratorTask) → is_leased (Option.map (requeued_row at) o) ≡ false
not_leased at none = refl
not_leased at (some t) = refl

pub expire_lease-OneLease :
    (at : ℕ) (k : String) (b : Board)
    → OneLease b.tasks b.assignments
    → OneLease (expire_lease at k b).tasks (expire_lease at k b).assignments
unfolding expire_lease
expire_lease-OneLease at k b h id =
    rw
      (
        rowcount-expired id k at b.assignments,
        lookup-row k (requeued_row at) (λ _. refl) id b.tasks,
        h id,
      )
      (elim (Bool-cases (k == id)) [
        | inl e ↦ rw (e, not_leased at (lookup task_key id b.tasks))
        | inr e ↦ rw e
      ])

new_row :
    (same : Bool) (o : Option OrchestratorTask) (t : OrchestratorTask)
    → (t.status == "leased") ≡ false
    → ◌≡◌ {A = ℕ} (if is_leased o then 1 else 0) (
        if is_leased (elim o [ some x ↦ some x | none ↦ (if same then some t else none) ])
        then 1
        else 0)
new_row same (some x) t waits = refl
new_row true none t waits = rw waits
new_row false none t waits = refl

module _ (tasks : List OrchestratorTask) (assignments : List Assignment)
    (h : OneLease tasks assignments) where
  -- a row that is not leased before and after a change of it
  pub update-OneLease :
      (f : OrchestratorTask → OrchestratorTask) (task : OrchestratorTask)
      → ((x : OrchestratorTask) → (f x).task_id ≡ x.task_id)
      → lookup task_key task.task_id tasks ≡ some task
      → (task.status == "leased") ≡ false
      → ((f task).status == "leased") ≡ false
      → OneLease (update (λ x. x.task_id == task.task_id) f tasks) assignments
  update-OneLease f task same_key there before after id =
      rw (h id, lookup-row task.task_id f same_key id tasks)
        (elim (Bool-cases (task.task_id == id)) [
          | inl e ↦ rw (e, sym (eq→path task.task_id id e), there, before, after)
          | inr e ↦ rw e
        ])

  -- a new lease of a task that is not leased
  pub lease-OneLease :
      (f : OrchestratorTask → OrchestratorTask) (task : OrchestratorTask) (a : Assignment)
      → ((x : OrchestratorTask) → (f x).task_id ≡ x.task_id)
      → lookup task_key task.task_id tasks ≡ some task
      → (task.status == "leased") ≡ false
      → ((f task).status == "leased") ≡ true
      → a.task_id ≡ task.task_id
      → (a.status == "leased") ≡ true
      → OneLease (update (λ x. x.task_id == task.task_id) f tasks) (assignments ++ a ∷ [])
  lease-OneLease f task a same_key there before after of_task is_lease id =
      rw
        (
          rowcount-append (leases_task id) assignments a,
          of_task,
          is_lease,
          h id,
          lookup-row task.task_id f same_key id tasks,
        )
        (elim (Bool-cases (task.task_id == id)) [
          | inl e ↦ rw (e, sym (eq→path task.task_id id e), there, before, after)
          | inr e ↦ rw e (ground arith)
        ])

  -- a new task
  pub append-OneLease :
      (t : OrchestratorTask)
      → (t.status == "leased") ≡ false
      → OneLease (tasks ++ t ∷ []) assignments
  append-OneLease t waits id =
      rw (h id, lookup-append task_key id t tasks)
        (new_row (t.task_id == id) (lookup task_key id tasks) t waits)
