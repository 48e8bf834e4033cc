-- ===== src/Rpc.antt =====
-- The two ways in which every loop talks to the RPC: retried calls and paged queries.
pub mod Retry
pub mod Pages
