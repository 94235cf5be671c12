-- ===== src/Lib.antt =====
-- The control plane of Hermes managed network, src/hermes_managed_network/*.py: nodes join with
-- tokens, operators ask for tasks and component changes, approvals decide on them, workers claim
-- tasks and report results, and every step leaves an audit row. All parts meet in the SQLite
-- database of storage.py; its transactions are modelled as functions from a store to a store.
--
-- - Schema: the rows of the tables and the state `Store` (src/hermes_managed_network/storage.py,
--   tokens.py, inventory.py). A table is the list of its rows. `reads` and `draws` count the calls
--   of datetime.now and of uuid4, whose values the parameter `Env` gives, so a clock may go backwards
--   and ids may collide unless a theorem says otherwise. Times are microseconds.
-- - Table: the SQL statements on such a list: SELECT, UPDATE, INSERT with its primary key, upsert,
--   ORDER BY. Table.Laws, Table.Keyed and Table.Order hold the lemmas on them.
-- - Json, Text: the JSON values of the detail columns, and the methods of str that the source calls.
-- - Audit: record_audit, _insert_audit_event, the heartbeat queries and task_dispatch_block_reason.
-- - Tokens: save_token, load_token, consume_token, expire_pending_tokens and list_tokens of
--   SQLiteStore; Tokens.Memory is the JoinTokenStore of tokens.py. consume_token is two transactions,
--   which Tokens.Race runs for two callers in the order of a schedule.
-- - Nodes: save_node, load_node, register_pending_node, rotate_node_fingerprint and list_nodes of
--   SQLiteStore; Nodes.Registry is the NodeRegistry of inventory.py.
-- - Tasks: create_task, claim_next_task, expire_stuck_tasks, complete_task and what they read;
--   Tasks.Output is _cap_task_output, on the characters of the text, so that no character is cut.
--   Tasks.Lifecycle has the queue as a step relation, one constructor for each operation.
-- - ApprovalTable, Approvals: create, save, load, list and resolve_approval_request. A resolution
--   saves the decision and then starts TaskDispatch or ComponentDispatch, each a transaction.
-- - TaskDispatch: dispatch_approved_task_request. ComponentDispatch:
--   dispatch_approved_component_action, over ComponentTable (set_node_component, the component runs).
-- - Executor: run_ssh_task, ssh_target_details_for_node and classify_ssh_failure of
--   src/hermes_managed_network/executor.py, with subprocess.run as the parameter `Shell`.
-- - Notifications: the outbox, enqueue_notification, list_notifications and
--   mark_notification_delivered.
-- - Api: the handlers of src/hermes_managed_network/api.py over the store. Api.Join is join; Api.Work has
--   heartbeat, rotate_fingerprint, next_task and task_result; Api.Decide has _resolve_approval and the
--   handlers of the approval gateway. A handler gives a `Reply`: an answer, a status, or an exception.
--   Api.Session is the session cookie of the console, with base64, HMAC and int as parameters.
-- - Version, Signing: is_worker_compatible of version.py, and signing.py with HMAC as a parameter.
-- - Cards: the card of a request and the parser of its buttons, approval_notifications.py.
-- - Telegram: handle_telegram_approval_callback of approval_telegram_flow.py. Its state `World` is the
--   store and the files, because the apply of an ACL writes one.
-- - NetworkAcl: dispatch_approved_network_acl_apply of network_acl.py. The parameter `Host` has the
--   paths, the folders, the digest and the commands of the machine.
-- - Orchestrator: OrchestratorService of orchestrator.py, on tables of its own beside the store.
--   Orchestrator.Tick is tick, Orchestrator.Workers register_worker and update_worker,
--   Orchestrator.Snapshot snapshot and report. The bridge adapter is the parameter `Adapter`.
--   Orchestrator.Runs has its operations as a step relation.
-- - Playbooks: playbook.py and PlaybookExecutor of executor.py, over any machine.
-- - Gateway: process_telegram_callbacks of approval_gateway.py, with the servers as `Remote`; each of
--   their calls, get_updates too, may raise.
-- - Services: classify_service_asset of storage.py, with str.lower as a parameter; Services.Classify has
--   its rules.
-- - Examples: a small network, and the theorems applied to it.
--
-- An operation that can raise returns a `Result`; a transaction that raises is rolled back and
-- leaves the store as it was, save the clock readings and ids drawn. Loops run over the rows of a
-- table, by recursion on the list, so there is no fuel. JSON is kept as values: the encoding of the
-- columns is that of Python's json. Uniqueness of a primary key is the predicate `IsKeyed`, a
-- hypothesis where SQLite guarantees it.
--
-- Not modelled: the command line, the server, and of api.py the pages, the console and the
-- documents; the clients of external services (Headscale, Telegram, Coolify, GitHub, Uptime Kuma);
-- the table of the service records; deployment; and of the
-- orchestrator what runs git. They print, call the store or reach other systems, and are no part of its
-- transactions. The DDL of the migrations is SQLite's.
pub mod Prelude
pub mod Json
pub mod Text
pub mod Table
pub mod Schema
pub mod Audit
pub mod Tokens
pub mod Nodes
pub mod Tasks
pub mod ApprovalTable
pub mod TaskDispatch
pub mod ComponentTable
pub mod ComponentDispatch
pub mod Approvals
pub mod Executor
pub mod Notifications
pub mod Version
pub mod Signing
pub mod NetworkAcl
pub mod Cards
pub mod Telegram
pub mod Orchestrator
pub mod Playbooks
pub mod Gateway
pub mod Services
pub mod Api
pub mod Examples
