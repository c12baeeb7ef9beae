-- ===== src/Ir/Convert/Parts.antt =====
-- src/ir/convert_ast.cpp: the parts of statements that stand between their expressions and blocks.
use minuet_lang_mirror.Base.{
  ℕ, ℤ, pos, negsuc, eq_ℤ, Bool, true, false, ◌&&◌, none, some, List, [], ◌∷◌, Run, done, ◌>>=◌,
  if◌then◌else◌,
}
use minuet_lang_mirror.Frontend.Lexicals.{
  Text, Token, token_to_sv, token_length, span_length, checked_substr,
}
use minuet_lang_mirror.Ir.Steps.{
  Op, Step, AbsAddress, address_eq, oper_nonary, oper_unary, oper_binary,
}
use minuet_lang_mirror.Ir.Graph.{dud_bb_id}
use minuet_lang_mirror.Ir.Convert.State.{
  Conversion, local_slot, global_function_slot, text_eq, report_error, gen_fun_aa, gen_temp_aa,
  record_name_aa, add_step, add_block, newest_bb_id, push_link, apply_pending_links,
}
use minuet_lang_mirror.Ir.Convert.Exprs.{Located, immediate_aa, move_step}

abbrev mark : Op → Step
mark op = oper_nonary (record { op = op })

abbrev jump_dud : Step
jump_dud = oper_unary (record { arg_0 = immediate_aa (pos 0); op = Op.jump })

abbrev jump_else_dud : AbsAddress → Step
jump_else_dud condition =
    oper_binary (record { arg_0 = condition; arg_1 = immediate_aa (pos 0); op = Op.jump_else })

unfoldable pub add_steps : List Step → Conversion → Run Conversion
unfolding add_step
add_steps [] c = done c
add_steps (s ∷ ss) c = add_step s c >>= add_steps ss

-- `emit_def` behind its initializer.
unfoldable pub finish_record : Text → Token → ℕ → Bool × Conversion → Run (Bool × Conversion)
unfolding checked_substr token_length span_length report_error
finish_record source name init_end (true, c) = done (true, c)
finish_record source name init_end (false, c) = do
  def_name ← checked_substr source name.start (token_length name)
  def_text ← checked_substr source name.start (span_length name.start init_end)
  done (false, report_error c)

unfoldable pub finish_def : Text → Token → ℕ → Text → Located → Run (Bool × Conversion)
unfolding gen_temp_aa add_step address_eq record_name_aa finish_record
finish_def source name init_end var_name (none, c) =
    let (var_dest_aa, c') = gen_temp_aa c in done (false, c')
finish_def source name init_end var_name (some var_init_aa, c) = do
  let (var_dest_aa, c1) = gen_temp_aa c
  c2 ←
      if address_eq var_dest_aa var_init_aa
      then done c1
      else add_step (move_step var_dest_aa var_init_aa) c1
  finish_record source name init_end (record_name_aa local_slot var_name var_dest_aa c2)

-- `emit_if`: before the condition, between the condition and the body, and behind the bodies.
unfoldable pub begin_if : Conversion → Run (ℤ × Conversion)
unfolding newest_bb_id add_step
begin_if c = do
  pre_cond_bb_id ← newest_bb_id c
  c' ← add_step (mark Op.meta_begin_if_else) c
  done (pre_cond_bb_id, c')

unfoldable pub check_if : AbsAddress → Conversion → Run Conversion
unfolding add_steps
check_if condition = add_steps (jump_else_dud condition ∷ mark Op.meta_mark_if_else_check ∷ [])

unfoldable pub begin_else : Conversion → Run Conversion
unfolding add_steps
begin_else = add_steps (jump_dud ∷ mark Op.meta_mark_if_else_alt ∷ mark Op.nop ∷ [])

unfoldable pub end_else : ℤ → ℤ × Conversion → Run (Bool × Conversion)
unfolding add_steps push_link add_block
end_else pre_cond_bb_id (cond_else_bb_id, c) = do
  c1 ← add_steps (mark Op.nop ∷ mark Op.meta_end_if_else ∷ []) c
  (post_cond_bb_id, c2) ← add_block (push_link pre_cond_bb_id cond_else_bb_id c1)
  done (true, push_link cond_else_bb_id post_cond_bb_id c2)

unfoldable pub end_if : ℤ → ℤ → Conversion → Run (Bool × Conversion)
unfolding add_steps push_link add_block
end_if pre_cond_bb_id cond_if_bb_id c = do
  (post_if_body_bb_id, c1) ← add_block c
  c2 ← add_steps (mark Op.nop ∷ mark Op.meta_end_if_else ∷ []) c1
  done (
    true,
    push_link pre_cond_bb_id post_if_body_bb_id (push_link cond_if_bb_id post_if_body_bb_id c2),
  )

unfoldable pub finish_return : Located → Run (Bool × Conversion)
unfolding add_step
finish_return (none, c) = done (false, c)
finish_return (some result_aa, c) = do
  c' ← add_step (oper_unary (record { arg_0 = result_aa; op = Op.ret })) c
  done (true, c')

-- `emit_while`: before the check, between the check and the body, and behind the body.
unfoldable pub begin_while : Conversion → Run (ℤ × Conversion)
unfolding newest_bb_id add_steps
begin_while c = do
  pre_loop_bb_id ← newest_bb_id c
  c' ← add_steps (mark Op.meta_begin_while ∷ mark Op.nop ∷ []) c
  done (pre_loop_bb_id, c')

unfoldable pub check_while : AbsAddress → Conversion → Run Conversion
unfolding add_steps
check_while check_result =
    add_steps (jump_else_dud check_result ∷ mark Op.meta_mark_while_check ∷ [])

unfoldable pub end_while : ℤ → ℤ × Conversion → Run (Bool × Conversion)
unfolding add_steps push_link add_block
end_while pre_loop_bb_id (in_loop_bb_id, c) = do
  c1 ← add_steps (jump_dud ∷ mark Op.meta_mark_continue ∷ []) c
  let linked = push_link pre_loop_bb_id in_loop_bb_id (push_link in_loop_bb_id pre_loop_bb_id c1)
  (post_loop_bb_id, c2) ← add_block linked
  c3 ← add_steps (mark Op.nop ∷ mark Op.meta_end_while ∷ []) c2
  done (true, push_link pre_loop_bb_id post_loop_bb_id c3)

unfoldable pub emit_break : Conversion → Run (Bool × Conversion)
unfolding add_steps
emit_break c = do c' ← add_steps (jump_dud ∷ mark Op.meta_mark_break ∷ []) c; done (true, c')

-- "main"
abbrev pub main_text : Text
main_text = 109 ∷ 97 ∷ 105 ∷ 110 ∷ []

abbrev note_main : Text → ℤ → Conversion → Conversion
note_main func_name id c =
    if text_eq func_name main_text && eq_ℤ c.proto_main_id (negsuc 0)
    then record c { proto_main_id = id }
    else c

-- `emit_function` while the names of functions are collected.
unfoldable pub declare_function : Text → Token → Conversion → Run (Bool × Conversion)
unfolding token_to_sv gen_fun_aa record_name_aa
declare_function source name c = do
  func_name ← token_to_sv name source
  let (func_aa, c1) = gen_fun_aa c
  done (record_name_aa global_function_slot func_name func_aa (note_main func_name func_aa.id c1))

unfoldable pub record_params : Text → List Token → Conversion → Run (Bool × Conversion)
unfolding token_to_sv gen_temp_aa record_name_aa
record_params source [] c = done (true, c)
record_params source (t ∷ ts) c = do
  param_name ← token_to_sv t source
  let (param_aa, c1) = gen_temp_aa c
  let (recorded, c2) = record_name_aa local_slot param_name param_aa c1
  let rest = record_params source ts c2
  if recorded then rest else done (false, c2)

-- The locals of a function end with it; its pending links do not.
abbrev pub leave_function : Conversion → Conversion
leave_function c = record c { locals = []; next_local_aa = pos 0 }

unfoldable pub finish_function : ℤ × Conversion → Run (Bool × Conversion)
unfolding apply_pending_links
finish_function (body_id, c) = do
  (ok, c') ← if eq_ℤ body_id dud_bb_id then done (false, c) else apply_pending_links c
  done (ok, leave_function c')

-- The id of a block, or -1 where one of its statements failed.
abbrev pub block_result : ℤ → Bool × Conversion → Run (ℤ × Conversion)
block_result bb_id (ok, c) = done (if ok then bb_id else dud_bb_id, c)
