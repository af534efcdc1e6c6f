-- ===== src/Python.antt =====
-- Parts of sdk-python/ that do what the Go SDK does in another way.
pub mod KeySet
pub mod Lookup
pub mod Claims
pub mod Requests
pub mod Failures
pub mod Responses
pub mod Token
