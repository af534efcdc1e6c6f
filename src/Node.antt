-- ===== src/Node.antt =====
-- Parts of sdk-node/ that do what the Go SDK does in another way.
pub mod Der
pub mod Failures
pub mod Responses
pub mod Token
pub mod KeySet
pub mod Coalesce
pub mod Claims
pub mod Requests
pub mod Poll
