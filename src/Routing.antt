-- ===== src/Routing.antt =====
-- routing/: from a request to its route.
pub mod Matcher
