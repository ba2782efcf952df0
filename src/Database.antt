-- ===== src/Database.antt =====
-- internal/database: the pool of database handles and the router in front of it.
pub mod Pool
pub mod Router
