-- ===== src/Pathmux.antt =====
-- pathmux/: the tree that finds the routes of a path.
pub mod Search
pub mod Add
