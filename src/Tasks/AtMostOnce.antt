-- ===== src/Tasks/AtMostOnce.antt =====
-- Two claims with any operations of the queue between them.
use hermes_managed_network.Prelude.{
  ℕ, String, ◌≡◌, ◌≢◌, refl, sym, ap, ◌∙◌, true, false, Option, some, ◌==◌, Bool-cases, inl, inr,
  eq_refl, arith,
}
use mathlib.Core.Option.{some-injective}
use hermes_managed_network.Json.{ℤ, is_zero}
use hermes_managed_network.Table.{IsKeyed}
use hermes_managed_network.Schema.{Task, Store, Env}
use hermes_managed_network.Tasks.{
  task_key, load_task, lease_expired, completed, result_status, claim_next_task,
}
use hermes_managed_network.Tasks.Claim.{Handed, claim_next_task-Handed}
use hermes_managed_network.Tasks.Lifecycle.{Moves, Step, Reach, Step-Moves}
use hermes_managed_network.Tasks.Keys.{Step-IsKeyed, Reach-IsKeyed}

-- the task is there and no longer pending
abbrev Taken : Option Task → Type 0
Taken o = (t : Task) × (o ≡ some t) × ((t.status == "pending") ≡ false)

result_taken : (code : ℤ) → (result_status code == "pending") ≡ false
result_taken code = elim (Bool-cases (is_zero code)) [ inl e ↦ rw e | inr e ↦ rw e ]

Moves-Taken : {o o' : Option Task} → Moves o o' → Taken o → Taken o'
Moves-Taken (Moves.stays o) h = h
Moves-Taken (Moves.created u p) h = cc (h.1)
Moves-Taken (Moves.started u at lease p) (t, e, h) =
    let q : t.status ≡ "pending" = sym (ap (λ x. x.status) (some-injective u t e)) ∙ p in
    let bad : true ≡ false = rw q at h in cc
Moves-Taken (Moves.expired u at p) h = (lease_expired at u, refl, refl)
Moves-Taken (Moves.reported u at code out err p) h =
    (completed at code out err u, refl, result_taken code)

module _ (env : Env) where
  Reach-Taken :
      {s s' : Store} (id : String)
      → Reach env s s'
      → Taken (load_task s id)
      → Taken (load_task s' id)
  Reach-Taken id Reach.here h = h
  Reach-Taken id (Reach.next r step) h = Moves-Taken (Step-Moves env step id) (Reach-Taken id r h)

  Handed-Taken :
      (s : Store) (node_id executor : String) (lease : ℕ) (t : Task)
      → Handed env s node_id executor lease t
      → Taken (load_task (claim_next_task env s node_id executor lease).0 t.task_id)
  Handed-Taken s node_id executor lease t h = (t, h.stored t.task_id ∙ rw eq_refl, rw h.handed)

  -- With unique task ids, a task that was handed out is never handed out again, by any claim of
  -- any node and executor after any sequence of creations with an id that is free, claims, sweeps
  -- and results.
  pub claim_at_most_once :
      (s s' : Store) (node_id executor node_id' executor' : String) (lease lease' : ℕ) (t u : Task)
      → IsKeyed task_key s.tasks
      → (claim_next_task env s node_id executor lease).1 ≡ some t
      → Reach env (claim_next_task env s node_id executor lease).0 s'
      → (claim_next_task env s' node_id' executor' lease').1 ≡ some u
      → u.task_id ≢ t.task_id
  claim_at_most_once s s' node_id executor node_id' executor' lease lease' t u keyed first r again
        same =
      let h = claim_next_task-Handed env s node_id executor lease keyed t first in
      let k' = Reach-IsKeyed env r (Step-IsKeyed env (Step.claim s node_id executor lease) keyed) in
      let h' = claim_next_task-Handed env s' node_id' executor' lease' k' u again in
      let (v, e, taken) = Reach-Taken t.task_id r (Handed-Taken s node_id executor lease t h) in
      let there : load_task s' t.task_id ≡ some h'.task =
        ap (λ k. load_task s' k) (sym same) ∙ h'.there in
      let p : v ≡ h'.task = some-injective v h'.task (sym e ∙ there) in
      let waiting : (h'.task.status == "pending") ≡ true = ground (arith, h'.waiting) in
      cc (ap (λ x. x.status == "pending") p)
