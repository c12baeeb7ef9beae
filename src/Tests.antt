-- ===== src/Tests.antt =====
-- Runs of src/frontend/lexing.cpp, src/runtime and src/mintrinsics on concrete inputs.
mod Lexer
mod Objects
mod Heap
mod Collector
mod Values
mod Handlers
mod Runs
mod Natives
mod Codegen
mod Convert
