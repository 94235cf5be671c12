-- ===== src/Tasks/Lifecycle.antt =====
-- The life of a task: pending, then running, then succeeded or failed. The operations of the queue
-- are the steps of a relation on stores; a creation draws an id that is not taken.
use hermes_managed_network.Prelude.{
  ℕ, ◌+◌, ◌*◌, String, ◌≡◌, refl, sym, ap, ◌∙◌, Bool, true, false, Option, none, some, ◌==◌, ◌&&◌,
  arith, Bool-cases, Option-cases, inl, inr, if◌then◌else◌, eq→path, map, ◌||◌,
}
use mathlib.Core.Option
use mathlib.Core.Option.{some-injective}
use mathlib.Core.Path.{subst}
use hermes_managed_network.Json.{ℤ}
use hermes_managed_network.Table.{contains}
use hermes_managed_network.Schema.{Task, Store, Env, now, read_clock}
use hermes_managed_network.Nodes.{load_node, is_managed}
use hermes_managed_network.Tasks.{
  task_key, load_task, pending_task, claimed, lease_expired, completed, new_task_id, next_waiting,
  second, create_task, claim_next_task, expire_stuck_tasks_at, stuck_rows, complete_task,
}
use hermes_managed_network.Tasks.Rows.{
  is_running, load-create_task, load-claim_row, load-expire_rows, finished, or_same,
}
use hermes_managed_network.Tasks.Report.{complete_task_outcome}

-- what one operation may do to the row of a task
pub data Moves : Option Task → Option Task → Type 0 where
  stays : (o : Option Task) → Moves o o
  created : (t : Task) → t.status ≡ "pending" → Moves none (some t)
  started :
      (t : Task) (at lease : ℕ) → t.status ≡ "pending" → Moves (some t) (some (claimed at lease t))
  expired : (t : Task) (at : ℕ) → t.status ≡ "running" → Moves (some t) (some (lease_expired at t))
  reported :
      (t : Task) (at : ℕ) (code : ℤ) (out err : String)
      → t.status ≡ "running"
      → Moves (some t) (some (completed at code out err t))

pub data Step (env : Env) : Store → Store → Type 0 where
  create :
      (s : Store) (node_id command risk created_by executor : String)
      → load_task s (new_task_id env s) ≡ none
      → Step env s (create_task env s node_id command risk created_by executor).0
  claim :
      (s : Store) (node_id executor : String) (lease : ℕ)
      → Step env s (claim_next_task env s node_id executor lease).0
  expire :
      (s : Store) (at older_than_seconds : ℕ)
      → Step env s (expire_stuck_tasks_at env at older_than_seconds s).0
  complete :
      (s : Store) (task_id : String) (code : ℤ) (out err : String)
      → Step env s (complete_task env s task_id code out err).0

pub data Reach (env : Env) (s : Store) : Store → Type 0 where
  here : Reach env s s
  next : {t u : Store} → Reach env s t → Step env t u → Reach env s u

expired_Moves :
    (at : ℕ) (b : Bool) (o : Option Task)
    → Moves o (Option.map (λ t. if b && is_running t then lease_expired at t else t) o)
expired_Moves at b none = stays none
expired_Moves at b (some t) = elim (Bool-cases (b && is_running t)) [
  | inl e ↦ rw e (expired t at (eq→path t.status "running" (ground arith)))
  | inr e ↦ rw e (stays (some t))
]

claimed-Moves :
    (at lease : ℕ) (b : Bool) (o : Option Task)
    → Moves o (
        if b
        then Option.map (λ t. if t.status == "pending" then claimed at lease t else t) o
        else o)
claimed-Moves at lease false o = stays o
claimed-Moves at lease true none = stays none
claimed-Moves at lease true (some t) = elim (Bool-cases (t.status == "pending")) [
  | inl e ↦ rw e (started t at lease (eq→path t.status "pending" e))
  | inr e ↦ rw e (stays (some t))
]

reported_Moves :
    (at : ℕ) (code : ℤ) (out err : String) (o : Option Task)
    → Moves o (or_same (finished at code out err o) o)
unfolding finished or_same
reported_Moves at code out err none = stays none
reported_Moves at code out err (some t) = elim (Bool-cases (is_running t)) [
  | inl e ↦ rw e (reported t at code out err (eq→path t.status "running" e))
  | inr e ↦ rw e (stays (some t))
]

-- the task has ended
abbrev pub is_terminal : Task → Bool
is_terminal t = t.status == "succeeded" || t.status == "failed"

pending_not_terminal :
    (u t : Task) → some u ≡ some t → u.status ≡ "pending" → is_terminal t ≡ true → ⊥
pending_not_terminal u t e p h =
    let q : t.status ≡ "pending" = sym (ap (λ x. x.status) (some-injective u t e)) ∙ p in
    let bad : false ≡ true = rw q at h in cc

running_not_terminal :
    (u t : Task) → some u ≡ some t → u.status ≡ "running" → is_terminal t ≡ true → ⊥
running_not_terminal u t e p h =
    let q : t.status ≡ "running" = sym (ap (λ x. x.status) (some-injective u t e)) ∙ p in
    let bad : false ≡ true = rw q at h in cc

module _ (env : Env) where
  claim_Moves :
      (s : Store) (node_id executor : String) (lease : ℕ) (id : String)
      → Moves (load_task s id) (load_task (claim_next_task env s node_id executor lease).0 id)
  unfolding claim_next_task load_task next_waiting load_node
  claim_Moves s node_id executor lease id = elim (Bool-cases (is_managed (load_node s node_id))) [
    | inl managed ↦ elim (Option-cases (next_waiting env s node_id executor)) [
      | inl nothing ↦ rw (managed, nothing) (stays (load_task s id))
      | inr (row, found) ↦
          rw (managed, found)
            (subst (λ o. Moves (load_task s id) o)
              (sym (load-claim_row env (read_clock s) node_id executor lease (now env s) row id))
              (claimed-Moves (now env s) (now env s + lease * second) (row.task_id == id)
                (load_task s id)))
    ]
    | inr unmanaged ↦ rw unmanaged (stays (load_task s id))
  ]

  create_Moves :
      (s : Store) (t : Task) (id : String)
      → load_task s t.task_id ≡ none
      → t.status ≡ "pending"
      → Moves (load_task s id) (if t.task_id == id then some t else load_task s id)
  create_Moves s t id free pending = elim (Bool-cases (t.task_id == id)) [
    | inl e ↦ rw (e, ← eq→path t.task_id id e, free) (created t pending)
    | inr e ↦ rw e (stays (load_task s id))
  ]

  complete_Moves :
      (s : Store) (task_id id : String) (at : ℕ) (code : ℤ) (out err : String)
      → Moves (load_task s id) (
          if task_id == id
          then or_same (finished at code out err (load_task s task_id)) (load_task s task_id)
          else load_task s id)
  complete_Moves s task_id id at code out err = elim (Bool-cases (task_id == id)) [
    | inl e ↦ rw (e, ← eq→path task_id id e) (reported_Moves at code out err (load_task s task_id))
    | inr e ↦ rw e (stays (load_task s id))
  ]

  expire_Moves :
      (s : Store) (at older_than_seconds : ℕ) (id : String)
      → Moves (load_task s id) (load_task (expire_stuck_tasks_at env at older_than_seconds s).0 id)
  unfolding expire_stuck_tasks_at
  expire_Moves s at older_than_seconds id =
      let rows = stuck_rows env at (older_than_seconds * second) s in
      subst (λ o. Moves (load_task s id) o) (sym (load-expire_rows env at rows s id))
        (expired_Moves at (contains (map task_key rows) id) (load_task s id))

  -- Every creation with an id that is free, claim, sweep and result moves the row of every task
  -- along the life of a task (none, pending, running, succeeded or failed), or leaves it as it
  -- is.
  pub Step-Moves :
      {s s' : Store} → Step env s s' → (id : String) → Moves (load_task s id) (load_task s' id)
  Step-Moves (create s node_id command risk created_by executor free) id =
      subst (λ o. Moves (load_task s id) o)
        (sym (load-create_task env s node_id command risk created_by executor id))
        (create_Moves s
          (pending_task (new_task_id env s) node_id command risk created_by (now env s) executor) id
          free refl)
  Step-Moves (claim s node_id executor lease) id = claim_Moves s node_id executor lease id
  Step-Moves (expire s at older_than_seconds) id = expire_Moves s at older_than_seconds id
  Step-Moves (complete s task_id code out err) id =
      subst (λ o. Moves (load_task s id) o)
        (sym (complete_task_outcome env s task_id id code out err).1)
        (complete_Moves s task_id id (now env s) code out err)

  Moves-is_terminal :
      {o o' : Option Task} (t : Task) → Moves o o' → o ≡ some t → is_terminal t ≡ true → o' ≡ some t
  Moves-is_terminal t (stays o) e h = e
  Moves-is_terminal t (created u p) e h = cc
  Moves-is_terminal t (started u at lease p) e h = absurd (pending_not_terminal u t e p h)
  Moves-is_terminal t (expired u at p) e h = absurd (running_not_terminal u t e p h)
  Moves-is_terminal t (reported u at code out err p) e h = absurd (running_not_terminal u t e p h)

  -- A task that has succeeded or failed is never changed again, by any sequence of creations with
  -- an id that is free, claims, sweeps and results.
  pub terminal_forever :
      {s s' : Store} (id : String) (t : Task)
      → Reach env s s'
      → load_task s id ≡ some t
      → is_terminal t ≡ true
      → load_task s' id ≡ some t
  terminal_forever id t here e h = e
  terminal_forever id t (next r step) e h =
      Moves-is_terminal t (Step-Moves step id) (terminal_forever id t r e h) h
