-- ===== src/Predicates.antt =====
-- predicates/: the conditions of routes.
pub mod ContentLength
