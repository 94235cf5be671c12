-- ===== src/Tasks/Watchdog.antt =====
-- Tasks whose worker lost its lease, under the sweep of the watchdog.
use mathlib.Core.Option
use hermes_managed_network.Prelude.{
  ℕ, ◌*◌, String, ◌≡◌, refl, sym, ◌∙◌, Bool, true, false, Option, none, some, map, ◌&&◌, arith,
  Bool-cases, inl, inr, if◌then◌else◌,
}
use hermes_managed_network.Table.{lookup, select, contains, IsKeyed}
use hermes_managed_network.Table.Keyed.{contains-order_by, contains-select}
use hermes_managed_network.Schema.{Task, Store, Env}
use hermes_managed_network.Tasks.{
  task_key, load_task, lease_expired, is_stuck, lease_le, stuck_rows, expire_stuck_tasks_at, second,
}
use hermes_managed_network.Tasks.Rows.{is_running, load-expire_rows}

-- the task is there and stuck
abbrev pub stuck_at : ℕ → ℕ → Option Task → Bool
stuck_at at older_than none = false
stuck_at at older_than (some t) = is_stuck at older_than t

-- what the sweep leaves of a task
abbrev pub swept : ℕ → ℕ → Option Task → Option Task
swept at older_than none = none
swept at older_than (some t) = some (if is_stuck at older_than t then lease_expired at t else t)

stuck_at_elim :
    (at older_than : ℕ) (o : Option Task)
    → elim o [ none ↦ false | some t ↦ is_stuck at older_than t ] ≡ stuck_at at older_than o
stuck_at_elim at older_than none = refl
stuck_at_elim at older_than (some t) = refl

stuck_runs : (at older_than : ℕ) (t : Task) → is_stuck at older_than t ≡ true → is_running t ≡ true
stuck_runs at older_than t h = ground arith

swept-map :
    (at older_than : ℕ) (b : Bool) (o : Option Task)
    → b ≡ stuck_at at older_than o
    → Option.map (λ t. if b && is_running t then lease_expired at t else t) o
      ≡ swept at older_than o
swept-map at older_than b none h = refl
swept-map at older_than true (some t) h = rw (sym h) (rw (stuck_runs at older_than t (sym h)))
swept-map at older_than false (some t) h = rw (sym h)

module _ (env : Env) (at older_than_seconds : ℕ) (s : Store) (keyed : IsKeyed task_key s.tasks)
    (id : String) where
  abbrev older_than : ℕ
  older_than = older_than_seconds * second

  returned :
      contains (expire_stuck_tasks_at env at older_than_seconds s).1 id
      ≡ stuck_at at older_than (load_task s id)
  unfolding expire_stuck_tasks_at load_task
  returned =
      contains-order_by task_key id
        (λ a b. lease_le a.lease_expires_at b.lease_expires_at a.created_at b.created_at)
        (select (is_stuck at older_than) s.tasks)
      ∙ contains-select task_key id (is_stuck at older_than) s.tasks keyed
      ∙ stuck_at_elim at older_than (lookup task_key id s.tasks)

  -- With unique task ids, a sweep at the time `at` returns exactly the ids of the running worker tasks
  -- whose lease ended `older_than_seconds` before `at` or earlier, stores these as failed with the
  -- reason worker_lease_expired, and leaves every other task as it was.
  pub expire_stuck_tasks_exact :
      (contains (expire_stuck_tasks_at env at older_than_seconds s).1 id
        ≡ stuck_at at older_than (load_task s id))
      × (load_task (expire_stuck_tasks_at env at older_than_seconds s).0 id
          ≡ swept at older_than (load_task s id))
  unfolding expire_stuck_tasks_at
  expire_stuck_tasks_exact = (
    returned,
    load-expire_rows env at (stuck_rows env at older_than s) s id
        ∙ swept-map at older_than (contains (map task_key (stuck_rows env at older_than s)) id)
            (load_task s id) returned,
  )

  swept_not_stuck : (o : Option Task) → stuck_at at older_than (swept at older_than o) ≡ false
  swept_not_stuck none = refl
  swept_not_stuck (some t) = elim (Bool-cases (is_stuck at older_than t)) [
    | inl e ↦ rw e
    | inr e ↦ rw (e, e)
  ]

  -- With unique task ids, after a sweep no task is stuck at the time of the sweep.
  pub expire_stuck_tasks_complete :
      stuck_at at older_than (load_task (expire_stuck_tasks_at env at older_than_seconds s).0 id)
      ≡ false
  expire_stuck_tasks_complete = rw expire_stuck_tasks_exact.1 (swept_not_stuck (load_task s id))
