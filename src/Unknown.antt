-- ===== src/Unknown.antt =====
-- generator/golang/extension/unknown
pub mod Types
pub mod Binary
pub mod Protocol
pub mod Write
pub mod Value
pub mod Read
pub mod Tape
mod Tests
