-- ===== src/References.antt =====
-- The reference tables that stand between the model and the backend.
pub mod Errors
pub mod Mapper
pub mod Entry
pub mod Registry
