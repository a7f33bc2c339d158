-- ===== src/Routes.antt =====
-- What stands in front of the handlers of the routes (internal/routes).
pub mod Cache
