-- ===== src/Semantic.antt =====
-- semantic: the checks on a parsed IDL file.
pub mod Ast
pub mod Report
pub mod Checker
pub mod Lookup
mod Tests
