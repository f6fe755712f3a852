-- ===== src/Scale.antt =====
-- The postgres-scale profile: bounded responses (api/scale_response.py), the audit chain
-- (api/postgres_audit.py) and the durable reservations (api/postgres_idempotency.py), over the
-- tables of api/migrations/postgres. A transaction is one step of the database.
pub mod Response
pub mod Audit
pub mod Stored
pub mod Store
pub mod Machine
pub mod Built
pub mod Commit
pub mod Chain
pub mod Backing
pub mod Settled
pub mod Lifecycle
pub mod Client
pub mod Reserving
pub mod Answers
pub mod Replay
pub mod Verifiable
pub mod Invariant
pub mod Completion
pub mod Progress
pub mod Verify
pub mod Tamper
pub mod Transition
pub mod Keys
mod Tests
