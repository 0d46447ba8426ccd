-- ===== src/Blueprint.antt =====
-- The blueprints of core/blue_print.go, which register routes and hold services.
pub mod Slice
pub mod Arrays
pub mod Append
pub mod Store
pub mod Services
pub mod Register
pub mod Shortcuts
pub mod Nodes
pub mod Sound
pub mod Handle
pub mod Shares
pub mod Include
pub mod BindStruct
pub mod BindCalls
mod Samples
