-- ===== src/Validators.antt =====
-- core/validators.
pub mod Field
pub mod Compare
pub mod Rules
pub mod Fields
pub mod Tags
pub mod Library
pub mod Opposites
pub mod Order
pub mod Run
pub mod Swap
pub mod Small
mod Samples
