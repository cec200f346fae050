-- ===== src/Reflection.antt =====
-- thrift_reflection: the descriptors of a Thrift file, and the lookups among them.
pub mod Alias
pub mod Descriptors
pub mod Files
pub mod Types
pub mod Services
pub mod Global
pub mod Included
pub mod Tests
