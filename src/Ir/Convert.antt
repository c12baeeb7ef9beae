-- ===== src/Ir/Convert.antt =====
-- src/ir/convert_ast.hpp and convert_ast.cpp: intermediate code from syntax trees.
pub mod State
pub mod Literals
pub mod Exprs
pub mod Wrote
pub mod Lowering
pub mod LiteralSteps
pub mod Emitting
pub mod ExprSteps
pub mod Pool
pub mod Built
pub mod PartSteps
pub mod Building
pub mod LoopSteps
pub mod Branching
pub mod BranchSteps
pub mod SimpleSteps
pub mod Placed
pub mod Sequencing
pub mod StmtSteps
pub mod Parts
pub mod Stmts
