-- ===== src/Filters.antt =====
-- filters/: the built-in filters that are modelled.
pub mod Cache
