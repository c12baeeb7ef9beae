-- ===== src/Ir.antt =====
-- src/ir: the intermediate code, its steps and its graphs of basic blocks, and its converter.
pub mod Steps
pub mod Graph
pub mod Linking
pub mod Convert
