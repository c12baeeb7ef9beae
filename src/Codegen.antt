-- ===== src/Codegen.antt =====
-- src/bcgen: bytecode from intermediate code.
pub mod Emitter
pub mod Decoding
pub mod Layout
pub mod Fuel
pub mod Walking
pub mod Operands
pub mod Control
