-- ===== src/Go.antt =====
-- How the development reads Go: `Outcome` for a function that may return an error or panic, and
-- `Exec` for one that also acts on a state.
pub mod Outcome
pub mod Exec
pub mod Ends
