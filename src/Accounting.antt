-- ===== src/Accounting.antt =====
-- app/accounting/: the price of a call, and the rows that record the calls.
pub mod Postgres
pub mod Recorder
pub mod Adapter
pub mod Events
