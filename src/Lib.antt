-- ===== src/Lib.antt =====
-- Ansina is a daemon: an always-on loop over a local language model (the Heart) that looks at the
-- daemon's state and decides to idle, act or escalate; a service that runs a coding agent as a child
-- process, and a policy that intervenes in its runs; and an identity and access layer over SQLite.
-- The development models the loop, the runs and the access layer as pure functions on explicit
-- state.
--
-- Heart, src/ansina/heart/tick:
--   Heart.Decision: decision.py, from a reply to a decision (`try_parse_decision`,
--     `parse_decision`). A text is the list of its code points; Thinking
--     holds the proofs.
--   Heart.Snapshot: snapshot.py, what the sources report and the prompt that is made of it
--     (`collect_items`, `build_prompt`); Budget and Order hold the proofs on each.
--   Heart.Tick: loop.py, the fields of `TickLoop` as a record and each method that changes them
--     (`pause`, `resume`, `_record_decision`, `_record_failure`, `_record_success`, `_trip_if`); Once
--     has `tick_once` and one round of `run`, Schedule `_next_tick_number`, Rounds the loop of `run`
--     with its waits, Invariant and Breaker the proofs on the counters.
--   Heart.Curation: src/ansina/heart/curation.py, which events of a run the model is shown
--     (`recency_window_selection`, `try_parse_curation`, `_enforce_budget`, `curate`); Budget,
--     Returns and RoundTrip hold the proofs.
--   Heart.Faults: fault_injection.py, the windows of a schedule (`load_fault_schedule` behind
--     `json.loads`) and the three roles of `FaultInjector`; Overlap and Unambiguous hold the proofs.
--   Heart.Journal: src/ansina/heart/journal.py, the table `heart_journal` (`append`, `sweep`,
--     `list_recent`), with journal_handler.py and sources/recent_journal.py; Newest is about the
--     order of the rows, Retention about what a write leaves.
--   Heart.Escalation: brain_escalation_handler.py, and `CompositeDecisionHandler` of loop.py; Row
--     holds the proofs.
--   Heart.Intervene: `OpencodeInterventionHandler` of opencode_intervention_handler.py, which asks
--     Opencode.Policy, acts through Opencode.Intervention and writes to Heart.Journal. Dispatch has
--     the handlers that `build_tick_loop` composes; Terse and Kept hold the proofs on the journal
--     after any run of ticks, Accounted those on one call.
--   Heart.Extraction: src/ansina/heart/extraction.py, the scan for an object in a reply and the three
--     parsers, and in Extractor the calls of the model; Balanced, Wrapped and Real hold the proofs.
--   Heart.Triage: src/ansina/heart/triage.py; Routes holds the proofs.
-- Opencode, src/ansina/opencode and the policy of src/ansina/heart/tick:
--   Opencode.Events: `_truncate_utf8` of events.py, with UTF-8 written out; Codec and Truncate hold
--     the proofs.
--   Opencode.Runner: runner.py, one run of a child (`_run_one` with its read loop, `_finish`), and
--     `parse_run_event` of events.py; a round of the loop gets a reading of the clock and what the
--     queue gives. A child that is killed exits; whether one that is not forced to exits is given, and
--     the wait for it has no end otherwise. Bytes, Bounded, Outcome and Reported hold the proofs. Admission is
--     `run` itself, its guards, the counter of the admitted calls and the semaphore.
--   Opencode.Run and Opencode.Repository: repository.py, the table `opencode_runs` as a list of
--     rows in their order of insertion, one function for each method; Laws and History hold the
--     proofs, History over every sequence of writes.
--   Opencode.Service: service.py, `OpencodeRunService` as a record of the table, the tasks, the
--     times of the last events and the telemetry lines. `submit`, `_execute` (in three steps: its
--     start, each event, its end), `cancel`, `stop`, `pause_intake`; Submit and Lifecycle hold the
--     proofs.
--   Opencode.Intervention: interventions.py and `apply_intervention`; Resubmit and Unmade hold the
--     proofs.
--   Opencode.Policy: opencode_intervention_handler.py, `DeterministicInterventionPolicy`; it reads
--     the service through a probe. Ladder and Budget hold the proofs.
-- Auth, src/ansina/auth:
--   Auth.Policy: policy.py, the verbs that each builtin role may use.
--   Auth.Grants: the rows of `role_permissions` (repositories.py), the reconciliation at boot
--     (reconciler.py) and `authorize` (authorization.py); Boot holds the proofs.
--   Auth.Throttle: login_throttle.py and the table `login_attempts`; Rows and Locks hold the proofs.
--   Auth.Sudo: sudo.py and the tables `sudo_grants` and `sudo_lockouts`; Grant holds the proofs.
--   Auth.Totp: totp.py and the TOTP verifier of step_up.py; Window and Replay hold the proofs.
--   Auth.Directory: the tables of users, groups, memberships and role assignments (repositories.py);
--     Any is about rows that pass a test, Holders about who has a role, Writes about the changes that
--     leave it to a user.
--   Auth.Management: the guards of management.py, and the bodies of the routes of
--     src/ansina/api/routes (users.py, groups.py, role_assignments.py) that change who holds a role,
--     and the synchronisation of roles at a login, each request a step, so that guards and writes of
--     two requests do not interleave; Guards, Login, LastAdmin and Escalation hold the proofs.
--   Auth.RoleSync: role_sync.py, over the same tables; Provenance holds the proofs.
--   Auth.Oidc: oidc_login.py, the states of logins, `start_login`, `complete_login` and the
--     provisioning of a user; what oidc.py gets from the provider is a parameter. Once and Provision
--     hold the proofs.
-- Storage.Migrator, src/ansina/storage/migrator.py: the discovery of the migrations, the checks and
--   the run; Numbers and Order hold the proofs. What a script does is a parameter.
-- Telemetry.Rotation, src/ansina/telemetry/rotation.py: the files of a spool (`write_line`, `_rotate`,
--   `_enforce_budget`); Fresh is about the names, Cap and Oldest about the budget, Write about a
--   whole call.
-- Logging.Redaction, src/ansina/logging/redaction.py: the registered secrets and `redact`; what a
--   regular expression makes of a text is a parameter. Hides holds the proofs.
-- Clock is auth/clock.py; Json is what `json.loads` gives; Prelude has the shared names, Prelude.Sets the rows of a table as a set.
-- Tests has runs at concrete inputs.
--
-- Numbers are naturals. Instants and lengths of time are microseconds, or, in the tick loop, one
-- unit for both; the loop's `overrun_ratio` is in thousandths. Where the source subtracts, the
-- clock's order keeps the result from being negative, or the source takes the maximum with 0. Four
-- loops have fuel: `next_from`, with one unit more than the clock reading, since each of its rounds
-- uses up another interval of it, and `free_target`, with one unit more than there are files, since
-- each of its rounds meets another file; the runner's read loop, with one unit more than the bytes
-- that a run may put out, since each line has a byte; and `str.replace`, with one unit more than there
-- are characters. A random id is an argument.
--
-- What a call outside the repository does is a parameter: the tokenizer, the model's reply, Unicode
-- tables, the result of a child process, SHA-256 and HMAC-SHA1, the clock. What is written to the log is left out. An
-- awaited call is atomic, but for the two halves of `submit`, which are also taken apart, the rounds of
-- the runner and what its admission awaits. Of SQLite, a table is the list or
-- the set of its rows, and a failed assertion in a transaction leaves it as it was. Not modelled:
-- the other HTTP routes, configuration, credentials and cryptography, the brain client, the
-- sources of state, the evaluation bench, the terminal client; they call other systems or pass
-- values on.
pub mod Prelude
pub mod Clock
pub mod Json
pub mod Logging
pub mod Heart
pub mod Opencode
pub mod Auth
pub mod Storage
pub mod Telemetry
pub mod Tests
