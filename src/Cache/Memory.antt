-- ===== src/Cache/Memory.antt =====
-- internal/cache/memory.go, `InMemoryCache`: the operations of one cache class, each with the time at
-- which it runs. The source holds one lock over each operation, so an operation is one step.
pub mod State
pub mod Delete
pub mod Lookup
pub mod Counter
pub mod Write
pub mod Sweep
pub mod Demand
pub mod Covered
pub mod View
pub mod Winner
pub mod Budget
pub mod Reads
