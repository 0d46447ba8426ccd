-- ===== src/Bind.antt =====
-- core/bind: form values, headers and files bound to the fields of a struct.
pub mod Slot
pub mod Single
pub mod File
pub mod Form
pub mod Multipart
pub mod Slices
pub mod Defaults
pub mod Runs
pub mod Present
mod Samples
