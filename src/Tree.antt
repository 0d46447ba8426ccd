-- ===== src/Tree.antt =====
-- core/tree.go.
pub mod Node
pub mod Priority
pub mod Insert
pub mod Walk
pub mod Lookup
pub mod Static
pub mod Add
pub mod Wild
pub mod Fold
mod Samples
