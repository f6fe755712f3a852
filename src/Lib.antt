-- ===== src/Lib.antt =====
-- SecureSwipe: verification of the order-integrity reference, the durable idempotency stores with
-- their audit chain, the in-process registry and the file audit log, the partition's verification
-- and the synthetic real-time layer.
--
-- The parts, and the files that model them:
--   Order (src/order_integrity): the server rebuilds every amount from a trusted catalog and
--     judges payment confirmations. Order.Catalog is catalog.py; Order.Cart is CartLine,
--     parse_client_lines, canonical_cart and reconstruct_amount_minor of verifier.py; Order.Quote
--     is Quote and build_quote; Order.Ledger is IntegrityResult and ConfirmationLedger;
--     Order.Verify is verify_confirmation. A client's JSON value is a `Value`; the SHA-256 of the
--     canonical cart's JSON is the parameter `digest`, of which nothing is assumed. A trusted catalog is a dictionary of such values, or absent.
--   Durable (src/operations/durable_idempotency.py): SqliteIdempotencyStore as a table of rows by
--     key digest. Each method is a function of the table that returns the new table and its
--     result or error; a restart is `recover`; Durable.Machine makes them steps of one machine.
--     SHA-256 of a request id and the current time are arguments. A statement or transaction of
--     SQLite is atomic and durable.
--   Realtime (src/synthetic_realtime): Realtime.Event is the event contract, Realtime.Clock is
--     clock.py, Realtime.Store is store.py, Realtime.Windows is windows.py, Realtime.Features is
--     the feature families, which query the store through the windows' bounds. Instants are
--     integers of microseconds; the clock's reading is an argument of the calls that read it.
--   Registry (api/audit.py): IdempotencyRegistry. Entries are shared objects, numbered; a call is
--     one atomic step, and a replay that would wait answers `waiting`.
--   AuditLog (api/audit.py): the file audit log. A log file is its list of lines and the anchor its
--     fields; the strict JSON reader and writer, SHA-256 and the floats are a `Library`, with what
--     their documentation says of them as its laws. AuditLog.Check is the events and
--     verify_audit_log, AuditLog the writer; AuditLog.Append and AuditLog.Reuse are about
--     append_inference on a log that is verified again.
--   Partition (src/lane_a/partition.py): role_for_timestamp and verify_partition.
--   Scale (api/scale_response.py, api/postgres_audit.py, api/postgres_idempotency.py): the
--     postgres-scale profile. Scale.Response is the bounded response and its check for forbidden
--     keys; Scale.Audit is the audit events, the tables that api/migrations/postgres creates and
--     verify_audit_chain; Scale.Store is PostgresIdempotencyStore with each method's transaction
--     as one step of the database, which an error rolls back; Scale.Client is
--     wait_for_reservation and execute_detailed, with the transactions of the others between
--     their own as arguments. The clock, JSON text, SHA-256, HMAC, UUIDs and jsonb equality are
--     an `Environment`, with what their documentation says of them as its laws. Scale.Machine makes
--     the transactions a machine, Scale.Transition and Scale.Keys say what it does to one key,
--     Scale.Chain, Scale.Backing and Scale.Invariant what it keeps of the chain.
--   Prelude: JSON values, hash chains and Python's int, dict, sorted, exceptions and character
--     classes.
--
-- Every loop of these parts goes over a list, so the definitions are structural recursions and
-- need no fuel; the polling loop goes over the list of its rounds, which the deadline bounds.
-- Python's integers are unbounded, and so are the model's.
--
-- Not modelled: the signature helpers of verifier.py and the seeded generators of clock.py, which
-- only call a library; SQLite's files; the reading, writing and syncing of the audit log's files;
-- the choice of the partition's boundaries, by floating-point fractions; pydantic's validation of
-- events (the model starts from validated ones); the amount family and the amount aggregates,
-- which are floating-point; signal descriptions; the datetime limit of year 1; the HTTP service;
-- the connection pool, timers, fault hooks and migrations of the Postgres stores; and the
-- numerical code of the models.
pub mod Prelude
pub mod Order
pub mod Durable
pub mod Realtime
pub mod Registry
pub mod Partition
pub mod AuditLog
pub mod Scale
