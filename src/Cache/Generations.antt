-- ===== src/Cache/Generations.antt =====
-- The generations of a cache: how many it holds, what a change of generation leaves readable, and the
-- generation that a manager's caches are at.
pub mod Count
pub mod Cycle
pub mod Scope
