-- ===== src/Codegen/Layout.antt =====
-- The structured code that the converter writes as steps with marks, and the bytecode it means.
-- This is the specification of the emitter of src/bcgen/emitter.cpp: it has no state and no
-- patching, and every jump gets its target when it is written.
pub mod Outlines
pub mod Ordering
pub mod Steps
pub mod Noting
pub mod Marks
pub mod Patches
pub mod Closing
pub mod Ends
pub mod Pieces
pub mod Loops
pub mod Branches
pub mod Emission
pub mod Landing
pub mod Targets
use minuet_lang_mirror.Base.{
  ℕ, ℤ, pos, ◌+◌, Bool, true, false, ◌&&◌, not, Option, none, some, List, [], ◌∷◌, ◌++◌, length,
  wrap16, if◌then◌else◌,
}
use minuet_lang_mirror.Ir.Steps.{
  Op, Step, AbsAddress, AbsAddrTag, tac_unary, tac_binary, oper_nonary, oper_unary, oper_binary,
  oper_ternary,
}
use minuet_lang_mirror.Runtime.Bytecode.{Instruction, Opcode, Chunk, ArgMode}
use minuet_lang_mirror.Codegen.Emitter.Metadata.{
  PseudoArg, pseudo_arg_eq, mode_of, encode_one, encode_two, encode_three, translate_value_aa,
}
use minuet_lang_mirror.Codegen.Emitter.Plain.{
  instruct_one, instruct_two, instruct_three, binary_opcode, unary_opcode, two_opcode, three_opcode,
}
use minuet_lang_mirror.Codegen.Emitter.Patching.{bare_nop}

pub data Code : Type 0 where
  skip leave : Code
  straight : Step → Code
  seq : Code → Code → Code
  loop : Code → AbsAddress → Code → Code
  branch : Code → AbsAddress → Code → Code
  branch_else : Code → AbsAddress → Code → Code → Code

abbrev pub marked : Op → Step
marked op = oper_nonary (record { op = op })

abbrev zero_aa : AbsAddress
zero_aa = record { tag = AbsAddrTag.immediate; id = pos 0 }

abbrev pub jump_step : Step
jump_step = oper_unary (record { arg_0 = zero_aa; op = Op.jump })

abbrev pub check_step : AbsAddress → Step
check_step condition =
    oper_binary (record { arg_0 = condition; arg_1 = zero_aa; op = Op.jump_else })

-- The steps that `emit_while`, `emit_if` and `emit_break` of src/ir/convert_ast.cpp write.
abbrev pub steps_of : Code → List Step
steps_of skip = []
steps_of leave = jump_step ∷ marked Op.meta_mark_break ∷ []
steps_of (straight s) = s ∷ []
steps_of (seq a b) = steps_of a ++ steps_of b
steps_of (loop check condition body) =
    (marked Op.meta_begin_while ∷ marked Op.nop ∷ steps_of check)
    ++ ((check_step condition ∷ marked Op.meta_mark_while_check ∷ steps_of body)
        ++ jump_step ∷ marked Op.meta_mark_continue ∷ marked Op.nop ∷ marked Op.meta_end_while ∷ [])
steps_of (branch check condition body) =
    (marked Op.meta_begin_if_else ∷ steps_of check)
    ++ ((check_step condition ∷ marked Op.meta_mark_if_else_check ∷ steps_of body)
        ++ marked Op.nop ∷ marked Op.meta_end_if_else ∷ [])
steps_of (branch_else check condition body other) =
    (marked Op.meta_begin_if_else ∷ steps_of check)
    ++ ((check_step condition ∷ marked Op.meta_mark_if_else_check ∷ steps_of body)
        ++ ((jump_step ∷ marked Op.meta_mark_if_else_alt ∷ marked Op.nop ∷ steps_of other)
            ++ marked Op.nop ∷ marked Op.meta_end_if_else ∷ []))

-- The instructions of a step that is no mark: one for each opcode of the tables, and a move with
-- a negation behind it where the operand of a negation is not its own destination.
abbrev pub lower_one : Option Opcode → Option PseudoArg → Option (List Instruction)
lower_one (some opcode) (some a0) = some (instruct_one opcode a0 ∷ [])
lower_one opcode a0 = none

abbrev pub lower_two :
    Option Opcode → Option PseudoArg → Option PseudoArg → Option (List Instruction)
lower_two (some opcode) (some a0) (some a1) = some (instruct_two opcode a0 a1 ∷ [])
lower_two opcode a0 a1 = none

abbrev pub lower_three :
    Option Opcode
    → Option PseudoArg
    → Option PseudoArg
    → Option PseudoArg
    → Option (List Instruction)
lower_three (some opcode) (some a0) (some a1) (some a2) = some (instruct_three opcode a0 a1 a2 ∷ [])
lower_three opcode a0 a1 a2 = none

abbrev pub lower_unary : Op → Option PseudoArg → Option PseudoArg → Option (List Instruction)
lower_unary Op.nop (some dest) (some a0) = some (instruct_two Opcode.mov dest a0 ∷ [])
lower_unary Op.neg (some dest) (some a0) = some (
    if pseudo_arg_eq dest a0
    then instruct_one Opcode.neg dest ∷ []
    else instruct_two Opcode.mov dest a0 ∷ instruct_one Opcode.neg dest ∷ [])
lower_unary op dest a0 = none

abbrev pub lower_nonary : Op → Option (List Instruction)
lower_nonary Op.nop = some (bare_nop ∷ [])
lower_nonary op = none

unfoldable pub lower : Step → Option (List Instruction)
unfolding encode_one encode_two encode_three translate_value_aa pseudo_arg_eq
lower (tac_unary s) = lower_unary s.op (translate_value_aa s.dest) (translate_value_aa s.arg_0)
lower (tac_binary s) =
    lower_three (binary_opcode s.op) (translate_value_aa s.dest) (translate_value_aa s.arg_0)
      (translate_value_aa s.arg_1)
lower (oper_nonary s) = lower_nonary s.op
lower (oper_unary s) = lower_one (unary_opcode s.op) (translate_value_aa s.arg_0)
lower (oper_binary s) =
    lower_two (two_opcode s.op) (translate_value_aa s.arg_0) (translate_value_aa s.arg_1)
lower (oper_ternary s) =
    lower_three (three_opcode s.op) (translate_value_aa s.arg_0) (translate_value_aa s.arg_1)
      (translate_value_aa s.arg_2)

abbrev pub code_of : Option (List Instruction) → List Instruction
code_of none = []
code_of (some code) = code

unfoldable pub lowered : Step → List Instruction
unfolding lower
lowered s = code_of (lower s)

abbrev pub jump_op : Op → Bool
jump_op Op.jump = true
jump_op Op.jump_if = true
jump_op Op.jump_else = true
jump_op op = false

abbrev pub jumps : Step → Bool
jumps (oper_unary s) = jump_op s.op
jumps (oper_binary s) = jump_op s.op
jumps s = false

abbrev pub is_some {ℓ} : {A : Type ℓ} → Option A → Bool
is_some none = false
is_some (some a) = true

-- A break stands inside a loop, a straight step is no mark and no jump, and a condition has an
-- address that an instruction can name. A condition has no break.
unfoldable pub valid : Bool → Code → Bool
unfolding lower
valid inside skip = true
valid inside leave = inside
valid inside (straight s) = is_some (lower s) && not (jumps s)
valid inside (seq a b) = valid inside a && valid inside b
valid inside (loop check condition body) =
    valid false check && is_some (mode_of condition.tag) && valid true body
valid inside (branch check condition body) =
    valid false check && is_some (mode_of condition.tag) && valid inside body
valid inside (branch_else check condition body other) =
    valid false check && is_some (mode_of condition.tag) && valid inside body && valid inside other

-- The argument of an address, and the jumps with their targets.
abbrev pub arg_of : AbsAddress → PseudoArg
arg_of a = record {
  value = a.id;
  tag = elim (mode_of a.tag) [ none ↦ ArgMode.last | some mode ↦ mode ];
}

unfoldable pub jump_to : ℤ → Instruction
unfolding wrap16 encode_one
jump_to target = record (instruct_one Opcode.jump (arg_of zero_aa)) { arg_0 = wrap16 target }

unfoldable pub check_to : AbsAddress → ℤ → Instruction
unfolding wrap16 encode_two
check_to condition target =
    record (instruct_two Opcode.jump_else (arg_of condition) (arg_of zero_aa)) {
      arg_1 = wrap16 target;
    }

-- The number of instructions.
unfoldable pub size : Code → ℕ
unfolding lowered
size skip = 0
size leave = 1
size (straight s) = length (lowered s)
size (seq a b) = size a + size b
size (loop check condition body) = size check + size body + 4
size (branch check condition body) = size check + size body + 2
size (branch_else check condition body other) = size check + size body + size other + 4

-- The code at `base`, where a break goes to `target`.
unfoldable pub layout : ℤ → ℕ → Code → Chunk
unfolding lowered size jump_to check_to
layout target base skip = []
layout target base leave = jump_to target ∷ []
layout target base (straight s) = lowered s
layout target base (seq a b) = layout target base a ++ layout target (base + size a) b
layout target base (loop check condition body) =
    let end = pos (base + size check + size body + 3) in
    bare_nop
    ∷ (layout (pos 0) (base + 1) check
        ++ (check_to condition end ∷ layout end (base + size check + 2) body)
        ++ jump_to (pos base) ∷ bare_nop ∷ [])
layout target base (branch check condition body) =
    let end = pos (base + size check + size body + 1) in
    layout (pos 0) base check
    ++ (check_to condition end ∷ layout target (base + size check + 1) body)
    ++ bare_nop ∷ []
layout target base (branch_else check condition body other) =
    let alternative = base + size check + size body + 2 in
    let end = pos (alternative + size other + 1) in
    layout (pos 0) base check
    ++ (check_to condition (pos alternative) ∷ layout target (base + size check + 1) body)
    ++ (jump_to end ∷ bare_nop ∷ layout target (alternative + 1) other)
    ++ bare_nop ∷ []

-- Where the breaks stand that leave the code.
unfoldable pub breaks : ℕ → Code → List ℤ
unfolding size
breaks base skip = []
breaks base leave = pos base ∷ []
breaks base (straight s) = []
breaks base (seq a b) = breaks base a ++ breaks (base + size a) b
breaks base (loop check condition body) = []
breaks base (branch check condition body) = breaks (base + size check + 1) body
breaks base (branch_else check condition body other) =
    breaks (base + size check + 1) body ++ breaks (base + size check + size body + 2 + 1) other
