-- ===== src/Codegen/Emitter/Patching.antt =====
-- src/bcgen/emitter.cpp: `emit_oper_nonary`, the marks of loops and conditionals.
use minuet_lang_mirror.Base.{
  ℤ, pos, negsuc, ◌+ℤ◌, ◌-ℤ◌, eq_ℤ, Bool, true, false, [], ◌∷◌, ◌++◌, drop_last, Run, done, ◌>>=◌,
  if◌then◌else◌,
}
use minuet_lang_mirror.Ir.Steps.{Op, OperNonary}
use minuet_lang_mirror.Runtime.Bytecode.{Instruction, Opcode, Chunk}
use minuet_lang_mirror.Codegen.Emitter.State.{
  ActiveIfElse, ActiveLoop, Emitter, back, set_back, append, chunk_size, patch_arg_0, patch_arg_1,
  patch_jumps,
}

abbrev pub bare_nop : Instruction
bare_nop = record { arg_0 = pos 0; arg_1 = pos 0; arg_2 = pos 0; metadata = 0; op = Opcode.nop }

-- The index of the newest instruction.
unfoldable pub newest_ip : Emitter → Run ℤ
unfolding chunk_size
newest_ip e = do size ← chunk_size e; done (size -ℤ pos 1)

-- `m_active_loops.back()` and `m_active_ifs.back()` changed in place.
abbrev pub change_loop : (ActiveLoop → ActiveLoop) → Emitter → Run Emitter
change_loop f e = do
  active ← back e.active_loops
  done (record e { active_loops = set_back e.active_loops (f active) })

abbrev pub change_if : (ActiveIfElse → ActiveIfElse) → Emitter → Run Emitter
change_if f e = do
  active ← back e.active_ifs
  done (record e { active_ifs = set_back e.active_ifs (f active) })

unfoldable pub begin_while : Emitter → Run Emitter
unfolding chunk_size
begin_while e = do
  starting_nop_ip ← chunk_size e
  done (record e {
    active_loops =
        e.active_loops
        ++ record {
          brk_ips = [];
          cont_ips = [];
          start_ip = starting_nop_ip;
          check_ip = pos 0;
          exit_ip = pos 0;
        }
          ∷ [];
  })

-- The recorded loop leaves the vector, so its `exit_ip` is seen by no one.
unfoldable pub end_while : Emitter → Run Emitter
unfolding newest_ip patch_arg_1 patch_jumps
end_while e = do
  loop_end ← newest_ip e
  active ← back e.active_loops
  chunk ← back e.result_chunks
  checked ← patch_arg_1 loop_end chunk active.check_ip
  left ← patch_jumps loop_end active.brk_ips checked
  repeated ← patch_jumps active.start_ip active.cont_ips left
  done (record e {
    result_chunks = set_back e.result_chunks repeated;
    active_loops = drop_last e.active_loops;
  })

unfoldable pub mark_while_check : Emitter → Run Emitter
unfolding newest_ip
mark_while_check e = newest_ip e >>= λ ip. change_loop (λ active. record active { check_ip = ip }) e

unfoldable pub mark_break : Emitter → Run Emitter
unfolding newest_ip
mark_break e = newest_ip e >>= λ ip.
    change_loop (λ active. record active { brk_ips = active.brk_ips ++ ip ∷ [] }) e

unfoldable pub mark_continue : Emitter → Run Emitter
unfolding newest_ip
mark_continue e = newest_ip e >>= λ ip.
    change_loop (λ active. record active { cont_ips = active.cont_ips ++ ip ∷ [] }) e

unfoldable pub begin_if_else : Emitter → Run Emitter
begin_if_else e = done (record e {
  active_ifs = e.active_ifs ++ record { check_ip = pos 0; alt_ip = negsuc 0; end_ip = pos 0 } ∷ [];
})

-- The jumps of a conditional whose `else` branch is behind `alt_ip`, or which has none.
unfoldable pub patch_if : ActiveIfElse → ℤ → Chunk → Run Chunk
unfolding patch_arg_0 patch_arg_1
patch_if active ie_end_ip chunk =
    if eq_ℤ active.alt_ip (negsuc 0) then patch_arg_1 ie_end_ip chunk active.check_ip else (do
      checked ← patch_arg_1 (active.alt_ip +ℤ pos 1) chunk active.check_ip
      patch_arg_0 ie_end_ip checked active.alt_ip)

unfoldable pub end_if_else : Emitter → Run Emitter
unfolding newest_ip patch_if
end_if_else e = do
  if_else_end_ip ← newest_ip e
  active ← back e.active_ifs
  chunk ← back e.result_chunks
  patched ← patch_if active if_else_end_ip chunk
  done (record e {
    result_chunks = set_back e.result_chunks patched;
    active_ifs = drop_last e.active_ifs;
  })

unfoldable pub mark_if_else_check : Emitter → Run Emitter
unfolding newest_ip
mark_if_else_check e = newest_ip e >>= λ ip. change_if (λ active. record active { check_ip = ip }) e

unfoldable pub mark_if_else_alt : Emitter → Run Emitter
unfolding newest_ip
mark_if_else_alt e = newest_ip e >>= λ ip. change_if (λ active. record active { alt_ip = ip }) e

abbrev emitting : Run Emitter → Run (Bool × Emitter)
emitting m = m >>= λ e. done (true, e)

unfoldable pub emit_nonary_op : Op → Emitter → Run (Bool × Emitter)
unfolding append begin_while end_while mark_while_check mark_break mark_continue begin_if_else
    end_if_else mark_if_else_check mark_if_else_alt
emit_nonary_op Op.nop e = emitting (append bare_nop e)
emit_nonary_op Op.meta_begin_while e = emitting (begin_while e)
emit_nonary_op Op.meta_end_while e = emitting (end_while e)
emit_nonary_op Op.meta_mark_while_check e = emitting (mark_while_check e)
emit_nonary_op Op.meta_mark_break e = emitting (mark_break e)
emit_nonary_op Op.meta_mark_continue e = emitting (mark_continue e)
emit_nonary_op Op.meta_begin_if_else e = emitting (begin_if_else e)
emit_nonary_op Op.meta_end_if_else e = emitting (end_if_else e)
emit_nonary_op Op.meta_mark_if_else_check e = emitting (mark_if_else_check e)
emit_nonary_op Op.meta_mark_if_else_alt e = emitting (mark_if_else_alt e)
emit_nonary_op op e = done (false, e)

unfoldable pub emit_oper_nonary : OperNonary → Emitter → Run (Bool × Emitter)
unfolding emit_nonary_op
emit_oper_nonary s e = emit_nonary_op s.op e
