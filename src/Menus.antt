-- ===== src/Menus.antt =====
-- The tree of the administration's menus.
pub mod Service
pub mod Forest
pub mod Acyclic
pub mod Keeps
