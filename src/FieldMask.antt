-- ===== src/FieldMask.antt =====
-- fieldmask: masks that say which fields, elements and keys of a value are to be handled.
pub mod Path
pub mod Storage
pub mod Query
pub mod Types
pub mod Pick
pub mod Build
pub mod Transfer
mod Tests
