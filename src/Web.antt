-- ===== src/Web.antt =====
-- internal/framework/web: the prefix guard, the route table and the chain of middlewares.
pub mod Guard
pub mod Routes
pub mod Serve
