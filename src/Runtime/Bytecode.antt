-- ===== src/Runtime/Bytecode.antt =====
-- src/runtime/bytecode.hpp: opcodes, argument modes, instructions and programs.
use minuet_lang_mirror.Base.{ℕ, ◌/◌, ◌%◌, ℤ, List, Option, ◌==◌, if◌then◌else◌}
use minuet_lang_mirror.Runtime.Values.{FastValue, HeapValue}

-- `modulo` is the opcode `mod`.
pub data Opcode : Type 0 where
  nop make_str make_seq seq_obj_push seq_obj_pop seq_obj_get frz_seq_obj load_const mov : Opcode
  neg inc dec mul div modulo add sub equ neq lt gt lte gte : Opcode
  jump jump_if jump_else call native_call ret halt last : Opcode

pub data ArgMode : Type 0 where
  immediate constant reg stack heap last : ArgMode

pub record Instruction : Type 0 where
  pub arg_0 : ℤ
  pub arg_1 : ℤ
  pub arg_2 : ℤ
  pub metadata : ℕ
  pub op : Opcode

abbrev pub Chunk : Type 0
Chunk = List Instruction

pub record Program : Type 0 where
  pub constants : List FastValue
  pub pre_objects : List HeapValue
  pub chunks : List Chunk
  pub entry_id : Option ℤ

-- `static_cast<ArgMode>`; the numbers above the last mode have no name in the source.
unfoldable pub arg_mode_of : ℕ → ArgMode
arg_mode_of m =
    if m == 0
    then immediate
    else if m == 1
    then constant
    else if m == 2
    then reg
    else if m == 3
    then stack
    else if m == 4
    then heap
    else ArgMode.last

-- `instruct_arity`
unfoldable pub instruct_arity : ℕ → ℕ
instruct_arity metadata = metadata % 4

-- The mode of argument 0, `(metadata & 0b00000000111100) >> 2`, and those of arguments 1 and 2.
unfoldable pub mode_0 : ℕ → ArgMode
unfolding arg_mode_of
mode_0 metadata = arg_mode_of (metadata / 4 % 16)

unfoldable pub mode_1 : ℕ → ArgMode
unfolding arg_mode_of
mode_1 metadata = arg_mode_of (metadata / 64 % 16)

unfoldable pub mode_2 : ℕ → ArgMode
unfolding arg_mode_of
mode_2 metadata = arg_mode_of (metadata / 1024 % 16)
