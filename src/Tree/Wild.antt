-- ===== src/Tree/Wild.antt =====
-- Routes with wildcards, as the first route of a tree.
pub mod NoHandle
pub mod Lost
pub mod Skip
pub mod CatchAll
pub mod Answers
mod Samples
