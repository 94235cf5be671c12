-- ===== src/Orchestrator/Sweep.antt =====
-- What the sweep of the leases that timed out leaves of the other columns and tables.
use hermes_managed_network.Prelude.{
  ℕ, ◌+◌, ◌*◌, String, ◌≡◌, refl, Bool, List, [], ◌∷◌, ◌==◌, ltb, Bool-cases, inl, inr,
}
use hermes_managed_network.Table.{IsKeyed}
use hermes_managed_network.Table.Keyed.{update-IsKeyed}
use hermes_managed_network.Schema.{Env, now, read_clock}
use hermes_managed_network.Tasks.{second}
use hermes_managed_network.Orchestrator.{
  Assignment, Board, task_key, on_store, leased_rows, expire_lease, expire_leases,
}
use hermes_managed_network.Orchestrator.Tick.{swept}

-- whether the lease of an assignment timed out
abbrev pub timed_out : ℕ → ℕ → Assignment → Bool
timed_out at timeout a = ltb (a.leased_at + timeout * second) at

-- A property of a board that each expiry keeps is kept by the sweep.
pub sweep_keeps {ℓ} :
    (P : Board → Type ℓ) (at timeout : ℕ)
    → ((task_id : String) (b : Board) → P b → P (expire_lease at task_id b))
    → (rows : List Assignment) (b : Board) → P b
    → P (expire_leases at timeout rows b)
unfolding expire_leases
sweep_keeps P at timeout keep [] b h = h
sweep_keeps P at timeout keep (a ∷ rest) b h = elim (Bool-cases (timed_out at timeout a)) [
  | inl e ↦
      rw e (sweep_keeps P at timeout keep rest (expire_lease at a.task_id b) (keep a.task_id b h))
  | inr e ↦ rw e (sweep_keeps P at timeout keep rest b h)
]

module _ (env : Env) (b : Board) (timeout : ℕ) where
  pub swept-IsKeyed : IsKeyed task_key b.tasks → IsKeyed task_key (swept env b timeout).tasks
  swept-IsKeyed =
      sweep_keeps (λ x. IsKeyed task_key x.tasks) (now env b.store) timeout
        (λ task_id x h.
          unfold expire_lease in
          update-IsKeyed task_key (λ t. t.task_id == task_id)
            (λ t. record t { status = "queued"; updated_at = now env b.store }) (λ _. refl) x.tasks
            h)
        (leased_rows b) (on_store b read_clock)

  pub workers-swept : (swept env b timeout).workers ≡ b.workers
  workers-swept =
      sweep_keeps (λ x. x.workers ≡ b.workers) (now env b.store) timeout
        (λ task_id x h. unfold expire_lease in h) (leased_rows b) (on_store b read_clock) refl
