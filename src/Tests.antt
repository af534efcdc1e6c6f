-- ===== src/Tests.antt =====
-- Concrete runs of the theorems.
pub mod Sample
pub mod Runs
mod Tokens
mod Requests
mod Flows
mod Threads
pub mod Tampered
mod Node
mod Across
mod Overtaken
mod Agreed
mod Sdks
