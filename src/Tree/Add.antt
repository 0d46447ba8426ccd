-- ===== src/Tree/Add.antt =====
-- What addRoute does to a tree without wildcards.
pub mod Order
pub mod Grown
pub mod Below
pub mod Correct
pub mod Refusal
pub mod First
