-- ===== src/Rdb.antt =====
-- rdb: the adapter by which the API server and the workers talk through Redis.
pub mod Adapter
pub mod Protocol
pub mod Service
pub mod Query
