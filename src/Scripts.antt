-- ===== src/Scripts.antt =====
-- scripts/: the tools of the operators. A script is a function of its arguments, of what the
-- services answer and of the database; `process.exit` ends it with a code.
pub mod AddUtxo
pub mod Funded
pub mod Backfill
pub mod Batches
pub mod Health
pub mod Healthy
pub mod Tests
