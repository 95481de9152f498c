-- ===== src/Cache/Memory/Covered.antt =====
-- Every operation keeps the entries covered by the recency list: each live entry has an element of its
-- own there, under its own key.
pub mod Steps
pub mod Lookup
pub mod Delete
pub mod Counter
pub mod Write
