-- ===== src/Orchestrator/Priority.antt =====
-- Which task a tick leases, and to which worker.
use hermes_managed_network.Prelude.{
  ℕ, String, ◌≡◌, refl, Bool, true, false, some, not, leb, arith, if◌then◌else◌,
}
use hermes_managed_network.Json.{ℤ, pos, negsuc}
use hermes_managed_network.Table.{lookup, select, order_by, IsKeyed}
use hermes_managed_network.Table.Order.{
  All-head, All-select, All-select_holds, All-order_by, All-lookup, All-at, first_below,
}
use hermes_managed_network.Orchestrator.{
  OrchestratorTask, Worker, Board, task_key, int_leb, ahead, is_ready, is_bridge, next_ready,
  next_worker, worker_key, fresher,
}

pub int_trans : (a b c : ℤ) → int_leb a b ≡ true → int_leb b c ≡ true → int_leb a c ≡ true
unfolding int_leb
int_trans (pos a) (pos b) (pos c) p q = ground arith
int_trans (pos a) (pos b) (negsuc c) p q = cc
int_trans (pos a) (negsuc b) c p q = cc
int_trans (negsuc a) (pos b) (pos c) p q = refl
int_trans (negsuc a) (pos b) (negsuc c) p q = cc
int_trans (negsuc a) (negsuc b) (pos c) p q = refl
int_trans (negsuc a) (negsuc b) (negsuc c) p q = ground arith

pub int_total : (a b : ℤ) → int_leb a b ≡ false → int_leb b a ≡ true
unfolding int_leb
int_total (pos a) (pos b) p = ground arith
int_total (pos a) (negsuc b) p = refl
int_total (negsuc a) (pos b) p = cc
int_total (negsuc a) (negsuc b) p = ground arith

-- a higher priority, or the same one and no later creation
abbrev pub comes_first : OrchestratorTask → OrchestratorTask → Bool
comes_first a b =
    if not (int_leb a.priority b.priority)
    then true
    else if not (int_leb b.priority a.priority)
    then false
    else leb a.created_at b.created_at

first_up : (a b : OrchestratorTask) → ahead a b ≡ true → comes_first a b ≡ true
unfolding ahead
first_up a b h = ground arith

first_down : (a b : OrchestratorTask) → ahead a b ≡ false → comes_first b a ≡ true
unfolding ahead
first_down a b h = ground (arith, int_total a.priority b.priority, int_total b.priority a.priority)

-- the same of the tests that it makes
through :
    (ab ba bc cb ac ca : Bool) (x y z : ℕ)
    → (ab ≡ false → ba ≡ true)
    → (ab ≡ true → bc ≡ true → ac ≡ true)
    → (cb ≡ true → ba ≡ true → ca ≡ true)
    → (ac ≡ true → cb ≡ true → ab ≡ true)
    → (ba ≡ true → ac ≡ true → bc ≡ true)
    → (if not ab then true else if not ba then false else leb x y) ≡ true
    → (if not bc then true else if not cb then false else leb y z) ≡ true
    → (if not ac then true else if not ca then false else leb x z) ≡ true
through true true true true true ca x y z o f g h k p q = rw (g refl refl) (ground arith)
through true true true true false ca x y z o f g h k p q = refl
through true true true false ac ca x y z o f g h k p q = cc
through true true false cb true ca x y z o f g h k p q = cc (k refl refl)
through true true false cb false ca x y z o f g h k p q = refl
through true false bc cb ac ca x y z o f g h k p q = cc
through false ba bc true true ca x y z o f g h k p q = cc (h refl refl)
through false ba bc true false ca x y z o f g h k p q = refl
through false ba true false ac ca x y z o f g h k p q = cc
through false ba false false false ca x y z o f g h k p q = refl
through false ba false false true ca x y z o f g h k p q = cc (k (o refl) refl)

first_trans :
    (a b c : OrchestratorTask)
    → comes_first a b ≡ true
    → comes_first b c ≡ true
    → comes_first a c ≡ true
first_trans a b c p q =
    through (int_leb a.priority b.priority) (int_leb b.priority a.priority)
      (int_leb b.priority c.priority) (int_leb c.priority b.priority)
      (int_leb a.priority c.priority) (int_leb c.priority a.priority) a.created_at b.created_at
      c.created_at (int_total a.priority b.priority) (int_trans a.priority b.priority c.priority)
      (int_trans c.priority b.priority a.priority) (int_trans a.priority c.priority b.priority)
      (int_trans b.priority a.priority c.priority) p q

module _ (b : Board) where
  module _ (row : OrchestratorTask) (found : next_ready b ≡ some row) where
    pub next_is_ready : is_ready row ≡ true
    unfolding next_ready
    next_is_ready =
        All-head (λ t. is_ready t ≡ true) (order_by ahead (select is_ready b.tasks)) row found
          (All-order_by ahead (λ t. is_ready t ≡ true) (select is_ready b.tasks)
            (All-select_holds is_ready b.tasks))

    pub next_is_there : IsKeyed task_key b.tasks → lookup task_key row.task_id b.tasks ≡ some row
    unfolding next_ready
    next_is_there keyed =
        All-head (λ t. lookup task_key t.task_id b.tasks ≡ some t)
          (order_by ahead (select is_ready b.tasks)) row found
          (All-order_by ahead (λ t. lookup task_key t.task_id b.tasks ≡ some t)
            (select is_ready b.tasks)
            (All-select (λ t. lookup task_key t.task_id b.tasks ≡ some t) is_ready b.tasks
              (All-lookup task_key b.tasks keyed)))

    pub next_is_first :
        (id : String) (u : OrchestratorTask)
        → lookup task_key id b.tasks ≡ some u
        → is_ready u ≡ true
        → comes_first row u ≡ true
    unfolding next_ready
    next_is_first id u there ready =
        All-at task_key (λ t. comes_first row t ≡ true) is_ready id b.tasks u
          (first_below ahead comes_first first_up first_down first_trans (select is_ready b.tasks)
            row found)
          there ready

  module _ (row : Worker) (found : next_worker b ≡ some row) where
    pub worker_is_bridge : is_bridge row ≡ true
    unfolding next_worker
    worker_is_bridge =
        All-head (λ w. is_bridge w ≡ true) (order_by fresher (select is_bridge b.workers)) row found
          (All-order_by fresher (λ w. is_bridge w ≡ true) (select is_bridge b.workers)
            (All-select_holds is_bridge b.workers))

    pub worker_is_there :
        IsKeyed worker_key b.workers → lookup worker_key row.worker_id b.workers ≡ some row
    unfolding next_worker
    worker_is_there keyed =
        All-head (λ w. lookup worker_key w.worker_id b.workers ≡ some w)
          (order_by fresher (select is_bridge b.workers)) row found
          (All-order_by fresher (λ w. lookup worker_key w.worker_id b.workers ≡ some w)
            (select is_bridge b.workers)
            (All-select (λ w. lookup worker_key w.worker_id b.workers ≡ some w) is_bridge b.workers
              (All-lookup worker_key b.workers keyed)))
