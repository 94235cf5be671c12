-- ===== src/Orchestrator/Workers.antt =====
-- register_worker and update_worker of OrchestratorService (src/hermes_managed_network/orchestrator.py).
use hermes_managed_network.Prelude.{ℕ, String, Option, none, some, List, [], ◌==◌, if◌then◌else◌}
use hermes_managed_network.Table.{lookup, upsert, update}
use hermes_managed_network.Schema.{Env, now, read_clock}
use hermes_managed_network.Orchestrator.{Worker, Board, worker_key}

module _ (env : Env) where
  abbrev registered_at_of : Option Worker → ℕ → ℕ
  registered_at_of none at = at
  registered_at_of (some w) at = w.registered_at

  -- INSERT ... ON CONFLICT(worker_id) DO UPDATE, which leaves registered_at
  unfoldable pub register_worker : Board → String → String → String → List String → Board
  register_worker b worker_id transport status labels =
      let at = now env b.store in
      let w : Worker = record {
        worker_id = worker_id;
        transport = transport;
        status = status;
        labels = labels;
        registered_at = registered_at_of (lookup worker_key worker_id b.workers) at;
        updated_at = at;
      } in
      record b { store = read_clock b.store; workers = upsert worker_key w b.workers }

  abbrev or_default {ℓ} : {A : Type ℓ} → Option A → A → A
  or_default none a = a
  or_default (some x) a = x

  -- transport or "bridge"
  abbrev transport_or : Option String → String
  transport_or none = "bridge"
  transport_or (some t) = if t == "" then "bridge" else t

  unfoldable pub update_found :
      Board → String → String → Option String → Option (List String) → Option Worker → List Worker
  update_found b worker_id status transport labels none =
      upsert worker_key
        (record {
          worker_id = worker_id;
          transport = transport_or transport;
          status = status;
          labels = or_default labels [];
          registered_at = now env b.store;
          updated_at = now env b.store;
        })
        b.workers
  update_found b worker_id status transport labels (some current) =
      update (λ w. w.worker_id == worker_id)
        (λ w. record w {
          transport = or_default transport current.transport;
          status = status;
          labels = or_default labels current.labels;
          updated_at = now env b.store;
        })
        b.workers

  unfoldable pub update_worker :
      Board → String → String → Option String → Option (List String) → Board
  update_worker b worker_id status transport labels = record b {
    store = read_clock b.store;
    workers =
        update_found b worker_id status transport labels (lookup worker_key worker_id b.workers);
  }
