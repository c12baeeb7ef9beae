-- ===== src/Ir/Convert/Exprs.antt =====
-- src/ir/convert_ast.cpp: expressions.
use minuet_lang_mirror.Base.{
  ℕ, ℤ, pos, zero, suc, ◌-ℤ◌, pos_part, Bool, true, false, Option, none, some, Run, done,
  bad_optional, from_option, ◌>>=◌, wrap16, if◌then◌else◌,
}
use minuet_lang_mirror.Frontend.Lexicals.{Text, checked_substr, span_length}
use minuet_lang_mirror.Semantics.Enums.{Operator, operator_to_ir_op}
use minuet_lang_mirror.Syntax.Trees.{
  ExprNode, expr_node, literal, sequence, lambda, call, unary, binary, assign, ExprList, no_exprs,
  and_expr, src_begin, src_end,
}
use minuet_lang_mirror.Ir.Steps.{
  Op, Step, AbsAddress, AbsAddrTag, tac_unary, tac_binary, oper_unary, oper_binary, oper_ternary,
}
use minuet_lang_mirror.Ir.Convert.State.{Conversion, report_error, gen_temp_aa, add_step}
use minuet_lang_mirror.Ir.Convert.Literals.{emit_literal}

abbrev pub Located : Type 0
Located = Option AbsAddress × Conversion

abbrev pub immediate_aa : ℤ → AbsAddress
immediate_aa n = record { tag = AbsAddrTag.immediate; id = n }

abbrev pub move_step : AbsAddress → AbsAddress → Step
move_step dest arg_0 = tac_unary (record { dest = dest; arg_0 = arg_0; op = Op.nop })

-- An error that quotes the source from `b` to `e`; the message itself is left out.
unfoldable pub refuse : Text → ℕ → ℕ → Conversion → Run Located
unfolding checked_substr span_length report_error
refuse source b e c =
    checked_substr source b (span_length b e) >>= λ text. done (none, report_error c)

-- The steps of `emit_unary`, `emit_binary` and `emit_call`, once their operands have addresses.
unfoldable pub finish_unary : Text → ℕ → ℕ → Operator → Located → Run Located
unfolding add_step refuse
finish_unary source b e op (none, c) = done (none, c)
finish_unary source b e Operator.negate (some temp, c) = do
  c' ← add_step (tac_unary (record { dest = temp; arg_0 = temp; op = Op.neg })) c
  done (some temp, c')
finish_unary source b e op (some temp, c) = refuse source b e c

unfoldable pub arithmetic : Operator → AbsAddress → AbsAddress → Conversion → Run Located
unfolding add_step gen_temp_aa operator_to_ir_op
arithmetic op lhs rhs c = do
  let (result_aa, c1) = gen_temp_aa c
  ir_op ← from_option bad_optional (operator_to_ir_op op)
  c2 ← add_step (tac_binary (record { dest = result_aa; arg_0 = lhs; arg_1 = rhs; op = ir_op })) c1
  done (some result_aa, c2)

unfoldable pub finish_binary :
    Text → ℕ → ℕ → Operator → Option AbsAddress → Option AbsAddress → Conversion → Run Located
unfolding arithmetic add_step gen_temp_aa refuse
finish_binary source b e op none rhs c = done (none, c)
finish_binary source b e op (some lhs) none c = done (none, c)
finish_binary source b e Operator.negate (some lhs) (some rhs) c = refuse source b e c
finish_binary source b e Operator.assign (some lhs) (some rhs) c = refuse source b e c
finish_binary source b e Operator.access (some lhs) (some rhs) c = do
  let (dest_aa, c1) = gen_temp_aa c
  c2 ←
      add_step
        (oper_ternary (record { arg_0 = dest_aa; arg_1 = lhs; arg_2 = rhs; op = Op.seq_obj_get }))
        c1
  done (some dest_aa, c2)
finish_binary source b e op (some lhs) (some rhs) c = arithmetic op lhs rhs c

abbrev pub calling_op : AbsAddrTag → Op
calling_op AbsAddrTag.immediate = Op.call
calling_op tag = Op.native_call

unfoldable pub finish_call : ℤ → AbsAddress → Bool × Conversion → Run Located
unfolding add_step ◌-ℤ◌ wrap16
finish_call real_args_n callee_aa (false, c) = done (none, c)
finish_call real_args_n callee_aa (true, c) = do
  let result_slot : AbsAddress = record {
    tag = AbsAddrTag.temp;
    id = wrap16 (c.next_local_aa -ℤ real_args_n);
  }
  c' ←
      add_step
        (oper_binary (record {
          arg_0 = immediate_aa callee_aa.id;
          arg_1 = immediate_aa real_args_n;
          op = calling_op callee_aa.tag;
        }))
        c
  done (some result_slot, c')

-- An argument that has an address goes to a fresh temporary.
unfoldable pub pass_argument : AbsAddress → Conversion → Run Conversion
unfolding add_step gen_temp_aa
pass_argument arg_aa c =
    let (arg_dest_aa, c1) = gen_temp_aa c in add_step (move_step arg_dest_aa arg_aa) c1

-- An item that has an address is pushed behind the others.
unfoldable pub push_item : AbsAddress → AbsAddress → Conversion → Run Conversion
unfolding add_step
push_item value_aa item_aa c =
    add_step
      (oper_ternary (record {
        arg_0 = value_aa;
        arg_1 = item_aa;
        arg_2 = immediate_aa (pos 1);
        op = Op.seq_obj_push;
      }))
      c

unfoldable pub finish_assign : Option AbsAddress → Option AbsAddress → Conversion → Run Located
unfolding add_step
finish_assign (some lhs) (some setting) c = do
  c' ← add_step (move_step lhs setting) c
  done (some lhs, c')
finish_assign lhs setting c = done (none, c)

abbrev pub expr_count : ExprList → ℕ
expr_count no_exprs = 0
expr_count (and_expr x xs) = suc (expr_count xs)

unfoldable pub freeze_if : Bool → AbsAddress → Conversion → Run Conversion
unfolding add_step
freeze_if is_fixed_size value_aa c =
    if is_fixed_size
    then add_step (oper_unary (record { arg_0 = value_aa; op = Op.frz_seq_obj })) c
    else done c

unfoldable pub finish_sequence : Bool → AbsAddress → Bool × Conversion → Run Located
unfolding freeze_if
finish_sequence is_tuple value_aa (false, c) = done (none, c)
finish_sequence is_tuple value_aa (true, c) = do
  c' ← freeze_if is_tuple value_aa c
  done (some value_aa, c')

-- The trees are taken apart by structure; `stod` is `std::stod`, and `source` the text of the unit.
unfoldable mutual
  unfolding emit_literal gen_temp_aa add_step finish_unary finish_binary finish_call pass_argument
      push_item finish_assign finish_sequence wrap16

  pub emit_expr : (Text → Run ℕ) → Text → ExprNode → Conversion → Run Located
  emit_expr stod source (expr_node (literal token) b e) c = emit_literal stod source token c
  emit_expr stod source (expr_node (sequence items is_tuple) b e) c = do
    let (value_aa, c1) = gen_temp_aa c
    c2 ← add_step (oper_unary (record { arg_0 = value_aa; op = Op.make_seq })) c1
    pushed ← emit_items stod source items value_aa c2
    finish_sequence is_tuple value_aa pushed
  emit_expr stod source (expr_node (call args callee) b e) c = do
    (callee_aa_opt, c1) ← emit_expr stod source callee c
    let real_args_n = wrap16 (pos (expr_count args))
    elim callee_aa_opt [
      | none ↦ done (none, c1)
      | some callee_aa ↦
          emit_args stod source args (pos_part real_args_n) c1 >>= finish_call real_args_n callee_aa
    ]
  emit_expr stod source (expr_node (unary inner op) b e) c =
      emit_expr stod source inner c >>= finish_unary source (src_begin inner) (src_end inner) op
  emit_expr stod source (expr_node (binary left right op) b e) c = do
    (lhs_aa_opt, c1) ← emit_expr stod source left c
    (rhs_aa_opt, c2) ← emit_expr stod source right c1
    finish_binary source (src_begin left) (src_end right) op lhs_aa_opt rhs_aa_opt c2
  emit_expr stod source (expr_node (assign left value) b e) c = do
    (lhs_aa_opt, c1) ← emit_expr stod source left c
    (setting_aa_opt, c2) ← emit_expr stod source value c1
    finish_assign lhs_aa_opt setting_aa_opt c2
  emit_expr stod source (expr_node (lambda params body) b e) c = done (none, c)

  pub emit_items :
      (Text → Run ℕ) → Text → ExprList → AbsAddress → Conversion → Run (Bool × Conversion)
  emit_items stod source no_exprs value_aa c = done (true, c)
  emit_items stod source (and_expr x xs) value_aa c = do
    (item, c1) ← emit_expr stod source x c
    elim item [
      | none ↦ done (false, c1)
      | some item_aa ↦ push_item value_aa item_aa c1 >>= emit_items stod source xs value_aa
    ]

  -- The first `n` arguments.
  pub emit_args : (Text → Run ℕ) → Text → ExprList → ℕ → Conversion → Run (Bool × Conversion)
  emit_args stod source no_exprs n c = done (true, c)
  emit_args stod source (and_expr x xs) zero c = done (true, c)
  emit_args stod source (and_expr x xs) (suc n) c = do
    (arg, c1) ← emit_expr stod source x c
    elim arg [
      | none ↦ done (false, c1)
      | some arg_aa ↦ pass_argument arg_aa c1 >>= emit_args stod source xs n
    ]
