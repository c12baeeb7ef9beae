-- ===== src/Runtime/Vm.antt =====
-- src/runtime/vm.hpp and src/runtime/vm.cpp: the register machine.
pub mod Engine
pub mod Collector
pub mod Objects
pub mod Arithmetic
pub mod Comparison
pub mod Control
pub mod Dispatch
pub mod Invariant
pub mod Startup
