-- ===== src/Lib.antt =====
-- The server of the IT asset inventory: its core logic as definitions, and the theorems on them.
--
-- The server (server/app) keeps an inventory of the machines of an organisation. An agent enrols its machine with
-- a token; the machine gets tags; an administrator logs in, with a second factor and rotated refresh tokens, and
-- asks for a forensic investigation of a machine; a worker in the background sends the investigation to the
-- DeepAgent service, or collects and analyses by itself, and external services push progress and results back.
-- Every step of weight is put on an audit log. Machines send heartbeats, a monitor sweeps over them, and alerts go
-- to the administrators of the organisations that a rule covers. What follows is the part of the server that
-- decides these things, and the part of the DeepAgent service (deepagent/deepagent) that the server relies on.
--
-- Base: names and helpers that all parts share: Boolean tests on the native numbers (Base/Tests), lists with
-- native lengths (Base/Lists), strip and lower (Base/Text).
--
-- Dfir: the investigation service (server/app/services/dfir_investigation.py), the progress route
-- (server/app/api/routes/llm_dfir_external.py), stop and delete (server/app/api/routes/llm_dfir.py).
--   Dfir/Types: a row of dfir_investigations, the configuration, the exceptions, the settings.
--   Dfir/Queue: claim_deepagent_dispatches. Dfir/Reconcile: _state_check_deepagent_job.
--   Dfir/Prepare, Dfir/Dispatch: _state_dispatch_deepagent, up to the request and from there on.
--   Dfir/Collect: _state_start, _state_poll_collect. Dfir/Analyze: _state_analyze and the notices.
--   Dfir/Worker: _process_one and run_pending_investigations, one tick over the whole table.
--   Dfir/External: submit_external_result, list_pending_for_external, mark_external_polled.
--   Dfir/Progress: update_investigation_status, stop, delete, create_investigation.
--   Dfir/Table, Dfir/Rows: the table as a keyed table, and what a loop over chosen rows leaves alone.
--   Dfir/Capacity, Dfir/Slots: how many slots are taken. Dfir/Frame: rows that a tick leaves alone.
--   Dfir/Catalogue: the artifacts that a request names. Dfir/Samples: rows and answers for tests.
--   Dfir/Moves: the lifecycle of a row that is not DeepAgent's.
--   Dfir/Release: how a slot is freed, and how a dispatch ends. Dfir/Sound, Dfir/SoundTick: the invariant of rows.
--   Dfir/Callback, Dfir/Monotone: callbacks, progress and polls.
--   Dfir/Calls, Dfir/Reach: the calls from outside, and every state that calls and ticks lead to, in any order.
--
-- Auth: sessions (server/app/api/routes/auth.py, verify_totp_counter of server/app/core/security.py).
--   Auth/Types: the rows; bcrypt, JWT, AES-GCM, SHA-256 and TOTP codes are the fields of the record Crypto.
--   Auth/Session: refresh, logout. Auth/SignIn: login with the second factor.
--   Auth/Account: change_password, update_my_profile, totp_setup, totp_confirm, disable_my_totp.
--   Auth/Rotation, Auth/Login, Auth/Closing: rotation and replay; what a login asks for; what ends a session.
--
-- Enroll: enrolment (server/app/api/routes/enroll.py, server/app/services/fingerprint.py).
--   Enroll/Types: the rows; Enroll/Fingerprint: identifier and likeness; Enroll/Attempt: _record_enroll_attempt;
--   Enroll/Perform: perform_enroll and enroll. Enroll/Spent, Enroll/Once: who is admitted, and what becomes of
--   the token; Enroll/Drift: drifts; Enroll/Retries: retries of refused machines.
--
-- Tags: the tags of a machine (server/app/services/tags.py); an enrolment of a new machine applies those of its
-- token. Tags/Single, Tags/Each: the classification of one machine, and of all.
--
-- Review: what administrators decide on enrolments (server/app/api/routes/enroll_attempts.py,
-- server/app/api/routes/drifts.py, server/app/api/routes/tokens.py), on the rows of Enroll.
--   Review/Types: the answers. Review/Attempts: _get_attempt_in_scope, approve_attempt, reject_attempt.
--   Review/Drifts: _resolve. Review/Tokens: create_token, create_tokens_bulk, revoke, reissue, delete.
--   Review/Links: create_link, toggle_link, delete_link, link_info, claim (server/app/api/routes/self_service.py).
--   Review/Decided, Review/Issued, Review/Recognised, Review/Claimed: a decision or a claim, and what comes after it.
--
-- Fleet: the life of an enrolled machine (server/app/api/routes/heartbeat.py, server/app/api/routes/machines.py,
-- server/app/services/monitor.py, the gate of server/app/api/routes/inventory.py).
--   Fleet/Types: the row. Fleet/Beat: heartbeat. Fleet/Sweep: the sweeps. Fleet/Desk: lifecycle, approve, reject.
--   Fleet/Calls: calls one after another.
--   Fleet/Swept, Fleet/KeptOut, Fleet/Declined, Fleet/Presence, Fleet/Approval: what calls lead to.
--
-- Access: who may do what (server/app/api/deps.py, server/app/services/org_scope.py, server/app/api/routes/orgs.py).
--   Access/Types: organisations and users. Access/Orgs: scope_orgs and visible_org_ids. Access/Guards: the guards of
--   the routes and the identity of agents. Access/Create: create_org.
--   Access/Walk, Access/Fuel, Access/Below: the walk over the tree; Access/Visible, Access/Entry: what users see;
--   Access/Roles, Access/Identity: who passes.
--
-- Net: the address of a client behind proxies (server/app/core/client_ip.py). Net/ClientIp: the definitions;
-- Net/Forwarded: forged headers.
--
-- Alerts: alerts and who is told (server/app/services/alert_engine.py, server/app/services/notifications.py,
-- server/app/services/user_notification_prefs.py).
--   Alerts/Types: the rows. Alerts/Session: the database session and create_notification. Alerts/Engine: the engine.
--   Alerts/Prefs: upsert_prefs. Alerts/Told, Alerts/Recipients, Alerts/Delivery, Alerts/OncePerDay, Alerts/Controls: recipients,
--   what is stored, repeated events, what users may choose.
--
-- Agent: the DeepAgent service. Agent/Catalog: the artifacts of an investigation (deepagent/deepagent/catalog.py);
-- Agent/Jobs: the registry of jobs (deepagent/deepagent/api.py); Agent/Retry: the delivery of a result
-- (deepagent/deepagent/callback.py). The proofs on these:
-- Agent/Tiers, Agent/Slots, Agent/Reach, Agent/Again, Agent/Rounds.
--
-- Requests: what administrators ask a super administrator to investigate (server/app/api/routes/dfir_requests.py),
-- under the guards of Access. Requests/Types: the rows, bodies and answers. Requests/Handle: create_request,
-- approve_request, reject_request, complete_request, patch_request. Requests/Read: list_requests, get_request.
--   Requests/Trail, Requests/Decisions: what each call, and any calls, leave; Requests/Hidden: what readers see.
--
-- Audit: the chain of hashes of the audit log (server/app/core/audit.py). Audit/Chain: its check.
--
-- How the code is carried over. A row of a table is a record, a table a list of rows, and a handler a function
-- from the rows to the rows and its outcome; an exception is a value of the outcome, and a handler whose changes
-- are rolled back returns the rows that it was given. A query is a filter or the first row that passes; a lock
-- that another transaction holds is a test on rows (`free`). What other services answer, and what comes from other
-- libraries, are arguments; a tick of the worker takes them in the record World. Times are whole seconds, and one
-- call reads the clock once. Only the walk over the tree of organisations takes fuel, a bound on its depth: two more
-- than there are rows, which is enough since each level of the recursion sees a row that no level above has seen,
-- the start excepted. An alert runs in a session with what is committed and what is not, since a rollback in the
-- delivery takes the event with it. Every other loop runs over a list, or a number of rounds that the code fixes.
--
-- Not modelled: interleavings of transactions within one handler, log lines, the cuts of texts at 500 or 2000
-- characters, the building of the prompts, the regular expressions on the report and in the templates of alerts,
-- API keys, stripping outside Latin-1 and lower-casing outside ASCII, floating-point rounding of the likeness of
-- fingerprints (exact fractions stand for it), the rendering of the commands for an installation, delivery by
-- Telegram and to browsers, the scan of alert rules by the clock, the storing of inventories, reports, the client
-- of Velociraptor, and the graph of an investigation inside the DeepAgent service.
pub mod Base
pub mod Dfir
pub mod Auth
pub mod Enroll
pub mod Tags
pub mod Audit
pub mod Access
pub mod Net
pub mod Alerts
pub mod Fleet
pub mod Review
pub mod Agent
pub mod Requests
