-- ===== src/Orchestrator/Snapshot.antt =====
-- snapshot and report of OrchestratorService (src/hermes_managed_network/orchestrator.py), without the
-- worktrees.
use Prim.Native.String.{◌++◌ as join}
use hermes_managed_network.Prelude.{
  ℕ, zero, suc, String, Option, none, some, List, [], ◌∷◌, ◌==◌, map, ltb, text_le, if◌then◌else◌,
  Bool, true, false,
}
use hermes_managed_network.Json.{ℤ, pos, Json, num, string, get, is_truthy}
use hermes_managed_network.Table.{select, order_by}
use hermes_managed_network.Schema.{AuditEvent, Store, Env, str}
use hermes_managed_network.Audit.{list_audit_events}
use hermes_managed_network.Orchestrator.{OrchestratorTask, Worker, Assignment, Report, Board, ahead}

pub record QueueRow : Type 0 where
  pub task_id : String
  pub title : String
  pub scope : String
  pub risk : String
  pub priority : ℤ
  pub status : String
  pub worker_hint : String
  pub source : String
  pub attempts : Option ℕ

pub record WorkerRow : Type 0 where
  pub worker_id : String
  pub transport : String
  pub status : String
  pub labels : List String

pub record AssignmentRow : Type 0 where
  pub task_id : String
  pub worker_id : String
  pub status : String

pub record ReportRow : Type 0 where
  pub task_id : String
  pub status : String
  pub summary : Json

pub record Snapshot : Type 0 where
  pub queue : List QueueRow
  pub workers : List WorkerRow
  pub assignments : List AssignmentRow
  pub reports : List ReportRow

-- task.pop("attempts") of a zero
abbrev shown_attempts : ℕ → Option ℕ
shown_attempts zero = none
shown_attempts (suc n) = some (suc n)

abbrev queue_row : OrchestratorTask → QueueRow
queue_row t = record {
  task_id = t.task_id;
  title = t.title;
  scope = t.scope;
  risk = t.risk;
  priority = t.priority;
  status = t.status;
  worker_hint = t.worker_hint;
  source = t.source;
  attempts = shown_attempts t.attempts;
}

-- the texts are compared by their code points
abbrev later_report : Report → Report → Bool
later_report a b =
    if ltb b.created_at a.created_at
    then true
    else if ltb a.created_at b.created_at
    then false
    else text_le b.report_id a.report_id

abbrev later_assignment : Assignment → Assignment → Bool
later_assignment a b =
    if ltb b.leased_at a.leased_at
    then true
    else if ltb a.leased_at b.leased_at
    then false
    else text_le b.assignment_id a.assignment_id

-- details.get("title") or action
abbrev title_or : Option Json → String → Json
title_or none action = string action
title_or (some v) action = if is_truthy v then v else string action

abbrev first_five {ℓ} : {A : Type ℓ} → List A → List A
first_five (a ∷ b ∷ c ∷ d ∷ e ∷ _) = a ∷ b ∷ c ∷ d ∷ e ∷ []
first_five rows = rows

unfoldable pub audit_reports : Store → List ReportRow
audit_reports s =
    map
      (λ (e : AuditEvent). record {
        task_id = e.subject_id;
        status = e.outcome;
        summary = title_or (get "title" e.details) e.action;
      })
      (first_five (select (λ e. e.event_type == "orchestrator") (list_audit_events s)))

-- reports, or those of the audit log if there is none
abbrev reports_or : List ReportRow → Store → List ReportRow
reports_or [] s = audit_reports s
reports_or rows s = rows

unfoldable pub snapshot : Board → Snapshot
snapshot b = record {
  queue = map queue_row (order_by ahead b.tasks);
  workers =
      map
        (λ (w : Worker). record {
          worker_id = w.worker_id;
          transport = w.transport;
          status = w.status;
          labels = w.labels;
        })
        (order_by (λ v w. text_le v.worker_id w.worker_id) b.workers);
  assignments =
      map
        (λ (a : Assignment). record {
          task_id = a.task_id;
          worker_id = a.worker_id;
          status = a.status;
        })
        (order_by later_assignment b.assignments);
  reports =
      reports_or
        (map
          (λ (r : Report). record {
            task_id = r.task_id;
            status = r.status;
            summary = string r.summary;
          })
          (first_five (order_by later_report b.reports)))
        b.store;
}

-- len(l)
unfoldable pub size {ℓ} : {A : Type ℓ} → List A → ℕ
size [] = zero
size (x ∷ xs) = suc (size xs)

-- reports[0].get("summary", "暂无") if reports else "暂无"
abbrev latest : List ReportRow → Json
latest [] = string "暂无"
latest (r ∷ _) = r.summary

module _ (env : Env) where
  unfoldable pub report : Board → String
  report b =
      let shot = snapshot b in
      join "队列 " (
        join (str env (num (pos (size shot.queue)))) (
          join "｜worker " (
            join (str env (num (pos (size shot.workers))))
              (join "｜最近：" (str env (latest shot.reports))))))
