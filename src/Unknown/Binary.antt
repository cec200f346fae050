-- ===== src/Unknown/Binary.antt =====
-- generator/golang/extension/unknown/binary.go: the thrift binary protocol on byte slices.
pub mod Words
pub mod Length
pub mod Write
pub mod Read
pub mod Format
pub mod Puts
pub mod Gets
pub mod Counts
pub mod RoundTrip
pub mod Overrun
