-- ===== src/Eskip.antt =====
-- eskip/: the route language.
pub mod Lexer
pub mod Printer
pub mod Route
pub mod Definition
pub mod Canonical
mod Tests
