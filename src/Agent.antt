-- ===== src/Agent.antt =====
-- The agent: what it remembers, how it batches labels, and the worker that prints them.
pub mod Snapshot
pub mod Config
pub mod Coalescer
pub mod Spool
pub mod World
pub mod Sending
pub mod Accounting
pub mod Printing
pub mod Submit
pub mod Loop
pub mod Directory
pub mod Main
pub mod Source
