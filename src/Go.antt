-- ===== src/Go.antt =====
-- The parts of Go's standard library that the SDK's own logic goes through.
pub mod Strings
pub mod Encoding
pub mod Url
pub mod Json
pub mod Http
