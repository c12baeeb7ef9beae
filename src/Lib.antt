-- ===== src/Lib.antt =====
-- The Minuet interpreter: its lexer, its converter and emitter, its runtime and its native
-- procedures.
--
-- A source file is split into tokens by the lexer (src/frontend), parsed, checked, lowered to an
-- intermediate form and emitted as bytecode. The engine (src/runtime/vm.cpp) runs the bytecode over
-- a register file, a stack of call frames and a heap of lists and strings. Values are small tagged
-- unions that may refer to an object or to an item of an object. The engine calls native procedures,
-- and runs the collector at each return.
--
-- The files and the code that they model:
--   Base: vectors with their signed indices, machine integers, code that may fault
--   Frontend/Lexicals: src/frontend/lexicals.hpp, tokens and their spans
--   Frontend/Lexing: src/frontend/lexing.cpp. State has the lexer and its character classes, Words
--     the spaces, words, operators and numbers, Quotes the comments, strings and characters, and
--     Dispatch `Lexer::operator()`
--   Syntax/Trees: src/syntax/exprs.hpp, stmts.hpp and ast.hpp
--   Semantics/Enums: src/semantics/enums.hpp
--   Ir/Steps and Ir/Graph: src/ir/steps.hpp, cfg.hpp and cfg.cpp. Linking has the laws of `link_bb`
--   Ir/Convert: src/ir/convert_ast.cpp. State has the tables of names and constants, Literals and
--     Exprs the expressions, Parts and Stmts the statements and `ASTConversion::operator()`; Wrote
--     to ExprSteps prove what an expression leaves in the newest block, Built to StmtSteps what a
--     statement leaves in all the blocks of its graph: PartSteps has the parts, LoopSteps and
--     BranchSteps the loops and conditionals, Sequencing the lists and bodies, Placed where a break
--     or a function may stand
--   Codegen/Emitter: src/bcgen/emitter.cpp and emitter.hpp. Plain has the steps that are one
--     instruction, Patching the marks of loops and conditionals, Blocks the walk over a graph
--   Codegen/Layout: the specification of the emitter, structured code and its bytecode, and in its
--     children the proof that the emitter follows it
--   Codegen/Decoding, Operands and Control: the emitted bytecode as src/runtime/vm.cpp reads it
--   Codegen/Fuel and Walking: the end of the walk over a graph. Codegen/Layout/Ordering: the order in
--     which it meets the blocks
--   Runtime/Values: the data of src/runtime/fast_value.hpp, sequence_value.hpp and string_value.hpp
--   Runtime/Objects: src/runtime/sequence_value.cpp and string_value.cpp, and the virtual calls
--   Runtime/HeapStorage: src/runtime/heap_storage.cpp and heap_storage.hpp
--   Runtime/FastValue: the operators of src/runtime/fast_value.cpp
--   Runtime/Bytecode: src/runtime/bytecode.hpp
--   Runtime/Vm: src/runtime/vm.cpp. Engine has the state, Objects, Arithmetic, Comparison and Control
--     the handlers, Collector the garbage collector, Dispatch the constructor and the loop
--   Intrinsics: src/mintrinsics/mnl_lists.cpp and mnl_strings.cpp, and `native_get_argv` of
--     mnl_utils.cpp
--   Tests: runs on concrete inputs
--
-- A method that changes its object is a function from the old state to the new one. `Run` is the
-- outcome of code that may leave the defined behaviour of C++: an index out of its vector, a
-- pointer to no object, a signed overflow, a read of an empty optional and a `substr` behind its
-- text are faults. Pointers to objects are addresses in the heap's memory, which `new` takes from
-- a counter; a pointer to a value is the address of an object with the position of an item. A
-- pointer that a vector's growth would invalidate stays valid in the model. Numbers of 16 and 32
-- bits wrap where the source's types do. A native procedure is a function on the engine. The
-- operations on doubles are a record of functions on bit patterns, `DoubleOps`, for the language's
-- own operations.
--
-- Fuel: a lexer's loop gets one round more than the bytes that are left. The depth of a `Machine`
-- bounds the chains of references and the nesting of lists that an operator follows, and the rounds
-- of the mark phase; the loop of the engine gets a number of rounds. The walk of the emitter over a
-- graph gets three rounds for each block and two more, since a block is entered once and pushes two
-- others. The converter follows the structure of its trees.
--
-- The sizes of lists and of the engine's vectors are natural numbers: a size beyond the largest
-- `int` is out of the model.
--
-- An `unordered_map` of names is a list of pairs whose first match counts. In the converter the
-- fault `overflow` also stands for the exceptions of `std::stoi` and `std::stod`, and `bad_optional`
-- for that of `std::get`; `std::stod` itself is a parameter. A preloaded object is a value of the
-- heap, and the texts of error messages are left out, their count is kept.
--
-- Not modelled: console input and output and the parsing of numbers in src/mintrinsics; the parser,
-- the analyzer and the driver; the names of opcodes and of steps for the printers; the heap's field
-- for a dud object, the engine's stack pointer and its count of constants, which nothing reads.
pub mod Base
pub mod Codegen
pub mod Frontend
pub mod Ir
pub mod Runtime
pub mod Intrinsics
pub mod Semantics
pub mod Syntax
pub mod Tests
