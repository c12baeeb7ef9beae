-- ===== src/Codegen/Emitter/Plain.antt =====
-- src/bcgen/emitter.cpp: the steps that emit instructions and move no mark.
use minuet_lang_mirror.Base.{
  pos, Bool, true, false, Option, none, some, Run, done, ◌>>=◌, if◌then◌else◌,
}
use minuet_lang_mirror.Ir.Steps.{Op, TacUnary, TacBinary, OperUnary, OperBinary, OperTernary}
use minuet_lang_mirror.Runtime.Bytecode.{Instruction, Opcode}
use minuet_lang_mirror.Codegen.Emitter.Metadata.{
  PseudoArg, pseudo_arg_eq, encode_one, encode_two, encode_three, translate_value_aa,
}
use minuet_lang_mirror.Codegen.Emitter.State.{Emitter, append}

abbrev refused : Emitter → Run (Bool × Emitter)
refused e = done (false, e)

abbrev pub emitted : Instruction → Emitter → Run (Bool × Emitter)
emitted i e = append i e >>= λ e'. done (true, e')

abbrev pub instruct_one : Opcode → PseudoArg → Instruction
instruct_one opcode a0 = record {
  arg_0 = a0.value;
  arg_1 = pos 0;
  arg_2 = pos 0;
  metadata = encode_one a0;
  op = opcode;
}

abbrev pub instruct_two : Opcode → PseudoArg → PseudoArg → Instruction
instruct_two opcode a0 a1 = record {
  arg_0 = a0.value;
  arg_1 = a1.value;
  arg_2 = pos 0;
  metadata = encode_two a0 a1;
  op = opcode;
}

abbrev pub instruct_three : Opcode → PseudoArg → PseudoArg → PseudoArg → Instruction
instruct_three opcode a0 a1 a2 = record {
  arg_0 = a0.value;
  arg_1 = a1.value;
  arg_2 = a2.value;
  metadata = encode_three a0 a1 a2;
  op = opcode;
}

unfoldable pub emit_unary_op : Op → PseudoArg → PseudoArg → Emitter → Run (Bool × Emitter)
unfolding append encode_one encode_two pseudo_arg_eq
emit_unary_op Op.nop dest arg_0 e = emitted (instruct_two Opcode.mov dest arg_0) e
emit_unary_op Op.neg dest arg_0 e =
    if pseudo_arg_eq dest arg_0 then emitted (instruct_one Opcode.neg dest) e else (do
      moved ← append (instruct_two Opcode.mov dest arg_0) e
      emitted (instruct_one Opcode.neg dest) moved)
emit_unary_op op dest arg_0 e = refused e

unfoldable pub unary_args :
    Op → Option PseudoArg → Option PseudoArg → Emitter → Run (Bool × Emitter)
unfolding emit_unary_op
unary_args op (some dest) (some arg_0) e = emit_unary_op op dest arg_0 e
unary_args op dest arg_0 e = refused e

unfoldable pub emit_tac_unary : TacUnary → Emitter → Run (Bool × Emitter)
unfolding translate_value_aa unary_args
emit_tac_unary s e = unary_args s.op (translate_value_aa s.dest) (translate_value_aa s.arg_0) e

abbrev pub binary_opcode : Op → Option Opcode
binary_opcode Op.mul = some Opcode.mul
binary_opcode Op.div = some Opcode.div
binary_opcode Op.modulo = some Opcode.modulo
binary_opcode Op.add = some Opcode.add
binary_opcode Op.sub = some Opcode.sub
binary_opcode Op.equ = some Opcode.equ
binary_opcode Op.neq = some Opcode.neq
binary_opcode Op.lt = some Opcode.lt
binary_opcode Op.gt = some Opcode.gt
binary_opcode Op.lte = some Opcode.lte
binary_opcode Op.gte = some Opcode.gte
binary_opcode op = none

abbrev pub emit_three :
    Option Opcode
    → Option PseudoArg
    → Option PseudoArg
    → Option PseudoArg
    → Emitter
    → Run (Bool × Emitter)
emit_three (some opcode) (some a0) (some a1) (some a2) e =
    emitted (instruct_three opcode a0 a1 a2) e
emit_three opcode a0 a1 a2 e = refused e

abbrev pub emit_two :
    Option Opcode → Option PseudoArg → Option PseudoArg → Emitter → Run (Bool × Emitter)
emit_two (some opcode) (some a0) (some a1) e = emitted (instruct_two opcode a0 a1) e
emit_two opcode a0 a1 e = refused e

abbrev pub emit_one : Option Opcode → Option PseudoArg → Emitter → Run (Bool × Emitter)
emit_one (some opcode) (some a0) e = emitted (instruct_one opcode a0) e
emit_one opcode a0 e = refused e

unfoldable pub emit_tac_binary : TacBinary → Emitter → Run (Bool × Emitter)
unfolding append translate_value_aa encode_three
emit_tac_binary s e =
    emit_three (binary_opcode s.op) (translate_value_aa s.dest) (translate_value_aa s.arg_0)
      (translate_value_aa s.arg_1) e

abbrev pub unary_opcode : Op → Option Opcode
unary_opcode Op.make_seq = some Opcode.make_seq
unary_opcode Op.frz_seq_obj = some Opcode.frz_seq_obj
unary_opcode Op.jump = some Opcode.jump
unary_opcode Op.ret = some Opcode.ret
unary_opcode Op.halt = some Opcode.halt
unary_opcode op = none

unfoldable pub emit_oper_unary : OperUnary → Emitter → Run (Bool × Emitter)
unfolding append translate_value_aa encode_one
emit_oper_unary s e = emit_one (unary_opcode s.op) (translate_value_aa s.arg_0) e

abbrev pub two_opcode : Op → Option Opcode
two_opcode Op.make_str = some Opcode.make_str
two_opcode Op.jump_if = some Opcode.jump_if
two_opcode Op.jump_else = some Opcode.jump_else
two_opcode Op.call = some Opcode.call
two_opcode Op.native_call = some Opcode.native_call
two_opcode op = none

-- The third argument is left out of the initializer, so it is 0.
unfoldable pub emit_oper_binary : OperBinary → Emitter → Run (Bool × Emitter)
unfolding append translate_value_aa encode_two
emit_oper_binary s e =
    emit_two (two_opcode s.op) (translate_value_aa s.arg_0) (translate_value_aa s.arg_1) e

abbrev pub three_opcode : Op → Option Opcode
three_opcode Op.seq_obj_push = some Opcode.seq_obj_push
three_opcode Op.seq_obj_get = some Opcode.seq_obj_get
three_opcode op = none

unfoldable pub emit_oper_ternary : OperTernary → Emitter → Run (Bool × Emitter)
unfolding append translate_value_aa encode_three
emit_oper_ternary s e =
    emit_three (three_opcode s.op) (translate_value_aa s.arg_0) (translate_value_aa s.arg_1)
      (translate_value_aa s.arg_2) e
