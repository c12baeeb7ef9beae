-- ===== src/Runtime.antt =====
-- src/runtime: values, heap objects, the heap, bytecode and the virtual machine.
pub mod Values
pub mod Objects
pub mod HeapStorage
pub mod FastValue
pub mod Bytecode
pub mod Vm
