-- ===== src/Across.antt =====
-- What the three SDKs agree on, and where they part.
pub mod Claims
pub mod Signing
pub mod KeySets
pub mod Errors
pub mod Responses
pub mod Tokens
