-- ===== src/Codegen/Emitter.antt =====
-- src/bcgen/emitter.hpp and emitter.cpp: the state of the emitter, its steps, and whole chunks.
pub mod Metadata
pub mod State
pub mod Plain
pub mod Patching
pub mod Blocks
