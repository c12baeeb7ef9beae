-- ===== src/Semantics.antt =====
-- src/semantics: operators and kinds.
pub mod Enums
