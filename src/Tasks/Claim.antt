-- ===== src/Tasks/Claim.antt =====
-- What a worker is handed.
use mathlib.Core.Option
use mathlib.Core.Option.{some-injective}
use mathlib.Core.Path.{subst}
use hermes_managed_network.Prelude.{
  ℕ, ◌+◌, ◌*◌, ◌≤◌, String, ◌≡◌, refl, sym, ap, ◌∙◌, Bool, true, false, none, some, ◌==◌, leb,
  leb→le, arith, eq_refl, eq→path, ◌⊎◌, Bool-cases, Option-cases, inl, inr, if◌then◌else◌,
}
use hermes_managed_network.Table.{lookup, select, order_by, IsKeyed}
use hermes_managed_network.Table.Order.{
  All-head, All-select, All-select_holds, All-order_by, All-lookup, All-at, All-no_first,
  first_least,
}
use hermes_managed_network.Schema.{Task, Store, Env, now, read_clock}
use hermes_managed_network.Nodes.{load_node, is_managed}
use hermes_managed_network.Tasks.{
  task_key, load_task, claimed, is_waiting, next_waiting, claim_next_task, second,
}
use hermes_managed_network.Tasks.Rows.{load-claim_row}

abbrev older : Task → Task → Bool
older a b = leb a.created_at b.created_at

older_total : (a b : Task) → (older a b ≡ true) ⊎ (older b a ≡ true)
older_total a b = ground arith

older_trans : (a b c : Task) → older a b ≡ true → older b c ≡ true → older a c ≡ true
older_trans a b c p q = ground arith

module _ (env : Env) (s : Store) (node_id executor : String) (lease : ℕ) where
  -- the row that the SELECT finds
  module _ (row : Task) (found : next_waiting env s node_id executor ≡ some row) where
    next_is_waiting : is_waiting node_id executor row ≡ true
    unfolding next_waiting
    next_is_waiting =
        All-head (λ t. is_waiting node_id executor t ≡ true)
          (order_by older (select (is_waiting node_id executor) s.tasks)) row found
          (All-order_by older (λ t. is_waiting node_id executor t ≡ true)
            (select (is_waiting node_id executor) s.tasks)
            (All-select_holds (is_waiting node_id executor) s.tasks))

    next_is_pending : (row.status == "pending") ≡ true
    next_is_pending = ground (arith, next_is_waiting)

    next_is_there : IsKeyed task_key s.tasks → load_task s row.task_id ≡ some row
    unfolding next_waiting load_task
    next_is_there keyed =
        All-head (λ t. lookup task_key t.task_id s.tasks ≡ some t)
          (order_by older (select (is_waiting node_id executor) s.tasks)) row found
          (All-order_by older (λ t. lookup task_key t.task_id s.tasks ≡ some t)
            (select (is_waiting node_id executor) s.tasks)
            (All-select (λ t. lookup task_key t.task_id s.tasks ≡ some t)
              (is_waiting node_id executor) s.tasks (All-lookup task_key s.tasks keyed)))

    next_is_oldest :
        (id : String) (u : Task)
        → load_task s id ≡ some u
        → is_waiting node_id executor u ≡ true
        → row.created_at ≤ u.created_at
    unfolding next_waiting load_task
    next_is_oldest id u there waiting = leb→le row.created_at u.created_at (
        All-at task_key (λ t. older row t ≡ true) (is_waiting node_id executor) id s.tasks u
          (first_least older older_total older_trans (select (is_waiting node_id executor) s.tasks)
            row found)
          there waiting)

  none_waits :
      next_waiting env s node_id executor ≡ none
      → (id : String) (u : Task) → load_task s id ≡ some u
      → is_waiting node_id executor u ≡ true
      → ⊥
  unfolding next_waiting load_task
  none_waits nothing id u there waiting =
      All-at task_key (λ _. ⊥) (is_waiting node_id executor) id s.tasks u
        (All-no_first older (λ _. ⊥) (select (is_waiting node_id executor) s.tasks) nothing) there
        waiting

  -- what the queue hands out, and why it was that task
  pub record Handed (t' : Task) : Type 0 where
    pub task : Task
    pub managed : is_managed (load_node s node_id) ≡ true
    pub there : load_task s t'.task_id ≡ some task
    pub waiting : is_waiting node_id executor task ≡ true
    pub oldest :
        (id : String) (u : Task)
        → load_task s id ≡ some u
        → is_waiting node_id executor u ≡ true
        → task.created_at ≤ u.created_at
    pub handed : t' ≡ claimed (now env s) (now env s + lease * second) task
    pub stored :
        (w : String)
        → load_task (claim_next_task env s node_id executor lease).0 w
          ≡ (if t'.task_id == w then some t' else load_task s w)

  claim_unmanaged :
      is_managed (load_node s node_id) ≡ false
      → claim_next_task env s node_id executor lease ≡ (read_clock s, none)
  unfolding claim_next_task load_node
  claim_unmanaged e = rw e

  claim_nothing :
      is_managed (load_node s node_id) ≡ true
      → next_waiting env s node_id executor ≡ none
      → claim_next_task env s node_id executor lease ≡ (read_clock s, none)
  unfolding claim_next_task load_node next_waiting
  claim_nothing e f = rw (e, f)

  module _ (keyed : IsKeyed task_key s.tasks) where
    claim_found_some :
        (row : Task)
        → is_managed (load_node s node_id) ≡ true
        → next_waiting env s node_id executor ≡ some row
        → (claim_next_task env s node_id executor lease).1
          ≡ some (claimed (now env s) (now env s + lease * second) row)
    unfolding claim_next_task load_task next_waiting load_node
    claim_found_some row managed found =
        rw (managed, found)
          (load-claim_row env (read_clock s) node_id executor lease (now env s) row row.task_id
            ∙ rw (eq_refl, next_is_there row found keyed, next_is_pending row found))

    claim_stored :
        (row : Task) (w : String)
        → is_managed (load_node s node_id) ≡ true
        → next_waiting env s node_id executor ≡ some row
        → load_task (claim_next_task env s node_id executor lease).0 w ≡ (
            if row.task_id == w
            then some (claimed (now env s) (now env s + lease * second) row)
            else load_task s w)
    unfolding claim_next_task load_task next_waiting load_node
    claim_stored row w managed found =
        rw (managed, found)
          (load-claim_row env (read_clock s) node_id executor lease (now env s) row w
            ∙ elsewhere (Bool-cases (row.task_id == w)))
      where
        elsewhere :
            ((row.task_id == w) ≡ true) ⊎ ((row.task_id == w) ≡ false)
            → (if row.task_id == w
                then Option.map
                    (λ t.
                      if t.status == "pending"
                      then claimed (now env s) (now env s + lease * second) t
                      else t)
                    (load_task s w)
                else load_task s w)
              ≡ (if row.task_id == w
                  then some (claimed (now env s) (now env s + lease * second) row)
                  else load_task s w)
        elsewhere (inl e) =
            rw (
              e,
              ← eq→path row.task_id w e,
              next_is_there row found keyed,
              next_is_pending row found,
            )
        elsewhere (inr e) = rw e

    of_claimed :
        is_managed (load_node s node_id) ≡ true
        → (row : Task) → next_waiting env s node_id executor ≡ some row
        → Handed (claimed (now env s) (now env s + lease * second) row)
    of_claimed managed row found = record {
      task = row;
      managed = managed;
      there = next_is_there row found keyed;
      waiting = next_is_waiting row found;
      oldest = next_is_oldest row found;
      handed = refl;
      stored = λ w. claim_stored row w managed found;
    }

    -- With unique task ids, a task that `claim_next_task` hands out was waiting for this node and
    -- executor, the node is managed, no task that waits for them was created earlier, and the task is
    -- handed out and stored as running under a lease from the time of the call; every other task
    -- stays as it was.
    pub claim_next_task-Handed :
        (t' : Task) → (claim_next_task env s node_id executor lease).1 ≡ some t' → Handed t'
    claim_next_task-Handed t' h = elim (Bool-cases (is_managed (load_node s node_id))) [
      | inl managed ↦ elim (Option-cases (next_waiting env s node_id executor)) [
        | inl nothing ↦ absurd (no_task managed nothing)
        | inr (row, found) ↦ of_row managed row found
      ]
      | inr unmanaged ↦ absurd (no_node unmanaged)
    ]
      where
        no_node : is_managed (load_node s node_id) ≡ false → ⊥
        no_node e = cc (ap (λ r. r.1) (claim_unmanaged e))

        no_task :
            is_managed (load_node s node_id) ≡ true → next_waiting env s node_id executor ≡ none → ⊥
        no_task e f = cc (ap (λ r. r.1) (claim_nothing e f))

        of_row :
            is_managed (load_node s node_id) ≡ true
            → (row : Task) → next_waiting env s node_id executor ≡ some row
            → Handed t'
        of_row managed row found =
            let e : some (claimed (now env s) (now env s + lease * second) row) ≡ some t' =
              sym (claim_found_some row managed found) ∙ h in
            subst (λ t. Handed t) (some-injective _ t' e) (of_claimed managed row found)

  -- With unique task ids, a managed node whose claim is answered with nothing has no task that
  -- waits for it and that executor.
  pub claim_next_task-none :
      IsKeyed task_key s.tasks
      → is_managed (load_node s node_id) ≡ true
      → (claim_next_task env s node_id executor lease).1 ≡ none
      → (id : String) (u : Task) → load_task s id ≡ some u
      → is_waiting node_id executor u ≡ false
  claim_next_task-none keyed managed h id u there =
      elim (Option-cases (next_waiting env s node_id executor)) [
        | inl nothing ↦ elim (Bool-cases (is_waiting node_id executor u)) [
          | inl waits ↦ absurd (none_waits nothing id u there waits)
          | inr idle ↦ idle
        ]
        | inr (row, found) ↦ cc (claim_found_some keyed row managed found)
      ]
