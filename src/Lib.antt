-- ===== src/Lib.antt =====
-- Fleet optimization: the decisions of src/fl_op that do not depend on a solver.
--
-- The program plans field work. Contracts describe source files (contracts, mapping); sources become
-- rows that execution events change (stream); orders are filtered by their relations, clusters get
-- resources, and a solver routes them (solver); plans are served over HTTP behind a guard
-- (serving/security). Modelled here:
--
-- - Serving: src/fl_op/serving/security. RateLimit is ratelimit.py, Principal principal.py, Authenticators
--   authenticators.py, Audit audit.py, Errors errors.py, Gateway gateway.py (`requires`), Gateway/Config
--   the settings read by `_build_authenticator`. A call takes the gateway's state and returns the answer
--   with the next state. Clock readings are naturals, `ticks` of them to a second.
-- - Stream/Dedup: src/fl_op/stream/dedup.py. The file is its text.
-- - Stream/Apply: src/fl_op/stream/apply.py with the payloads of coverage.py. Rows holds the tables and
--   the resolution of columns, Tasks and Passes the task handlers, Upserts the rows that payloads bring,
--   Telemetry the observations, Dispatch `apply`. `State` is the applicator's state with the rows;
--   floats, time stamps and polygons are the record `Host`.
-- - Stream/Source: src/fl_op/stream/source.py. JSON values are those of `json.loads`, a parameter.
-- - Stream/Broker: src/fl_op/stream/broker.py, over any Kafka client (`Consumer`). The poll loop runs on
--   fuel; a backlog of n messages and a bound of e empty polls need no more than n(e + 1) + e + 1 polls.
-- - Stream/Driver: src/fl_op/stream/driver.py. Batches coalesces and applies, Sessions drains; snapshots and
--   plans are those of a `Planner`, which does not raise.
-- - Stream/Runs: `run_plan_rolling` and `run_plan_watch` of src/fl_op/planning/plans.py, the clients of all
--   of these. History is the step relation of processes, crashes and redeliveries over one store file.
-- - Relations: src/fl_op/solver/task_relations.py. Its two `while` loops run on as many rounds as there are
--   orders or records and one more; each round but the last takes one away, so they end.
-- - Solver/Allocation: the greedy path of src/fl_op/solver/allocation, with scores over the record `Scores`.
-- - Solver/Intervals and Solver/Restrictions: sets of instants and start intervals of
--   src/fl_op/solver/restrictions.py.
-- - Solver/Operators: backup operators of src/fl_op/solver/enforcement.py, over the record `Reading`.
-- - Solver/Weather: weather windows of src/fl_op/solver/enforcement.py, over the record `Sky`.
-- - Solver/Materials: material limits and reservations of src/fl_op/solver/enforcement.py, over the
--   record `Amounts`.
-- - Solver/Conflict: src/fl_op/solver/cluster/conflict.py, with floats as the record `Utilizations`.
-- - Mapping: src/fl_op/mapping/policies.py.
-- - Evolution: src/fl_op/contracts/evolution.py, its schema classes and version policy.
--
-- Texts are lists of code points, dicts association lists in insertion order, sets lists (Base). A raised
-- exception is a value of a result type or none of an Option, as each file says. Log lines, messages and
-- locks are not modelled. PyJWT, SHA-256, `datetime.fromisoformat`, `ast.literal_eval`, floats and
-- geodesic areas are parameters. Instants are naturals, so the comparison of naive and aware times,
-- which raises in Python, is not modelled. Not modelled at all: routing and the global assignment model
-- (OR-Tools), snapshots, planning documents, registries, adapters, the command line.
pub mod Base
pub mod Serving
pub mod Stream
pub mod Relations
pub mod Evolution
pub mod Solver
pub mod Mapping
