-- ===== src/Ir/Convert/Stmts.antt =====
-- src/ir/convert_ast.cpp: statements, functions and whole programs.
use minuet_lang_mirror.Base.{
  ℕ, ℤ, ltb, ◌==◌, Bool, true, false, Option, none, some, List, [], ◌∷◌, Run, done, fault,
  bad_optional, bad_index, ◌>>=◌, if◌then◌else◌,
}
use minuet_lang_mirror.Frontend.Lexicals.{Text, token_to_sv}
use minuet_lang_mirror.Syntax.Trees.{
  StmtNode, stmt_node, StmtList, OptStmt, expr_stmt, local_def, detup_def, if_stmt, return_stmt,
  while_stmt, break_stmt, block, function, native_stub, import_stmt, no_stmts, and_stmt, no_stmt,
  just_stmt, FullAst, src_end,
}
use minuet_lang_mirror.Ir.Graph.{FullIr}
use minuet_lang_mirror.Ir.Convert.State.{
  Conversion, fresh_conversion, add_cfg, add_block, push_link,
}
use minuet_lang_mirror.Ir.Convert.Exprs.{emit_expr, Located}
use minuet_lang_mirror.Ir.Convert.Parts.{
  finish_def, begin_if, check_if, begin_else, end_else, end_if, finish_return, begin_while,
  check_while, end_while, emit_break, declare_function, record_params, leave_function,
  finish_function, block_result,
}

abbrev pub has_address : Located → Run (Bool × Conversion)
has_address (none, c) = done (false, c)
has_address (some aa, c) = done (true, c)

-- A body is a `Block` to `std::get`, which throws where it is another statement.
unfoldable mutual
  unfolding emit_expr token_to_sv add_cfg add_block push_link finish_def begin_if check_if
      begin_else end_else end_if finish_return begin_while check_while end_while emit_break
      declare_function record_params finish_function

  pub emit_stmt : (Text → Run ℕ) → Text → StmtNode → Conversion → Run (Bool × Conversion)
  emit_stmt stod source (stmt_node (function params name body) b e) c = elim c.prepassing [
    | true ↦ declare_function source name c
    | false ↦ record_params source params (add_cfg c) >>= λ p. elim p.0 [
      | true ↦ emit_body stod source body p.1 >>= finish_function
      | false ↦ done (false, leave_function p.1)
    ]
  ]
  emit_stmt stod source (stmt_node (block items) b e) c = do
    (bb_id, c1) ← add_block c
    emit_stmts stod source items c1
  emit_stmt stod source (stmt_node (return_stmt result) b e) c =
      emit_expr stod source result c >>= finish_return
  emit_stmt stod source (stmt_node (while_stmt check body) b e) c = do
    (pre_loop_bb_id, c1) ← begin_while c
    (check_result_aa, c2) ← emit_expr stod source check c1
    elim check_result_aa [
      | none ↦ done (false, c2)
      | some aa ↦ check_while aa c2 >>= emit_body stod source body >>= end_while pre_loop_bb_id
    ]
  emit_stmt stod source (stmt_node break_stmt b e) c = emit_break c
  emit_stmt stod source (stmt_node (if_stmt condition if_body else_body) b e) c = do
    (pre_cond_bb_id, c1) ← begin_if c
    (cond_result_aa, c2) ← emit_expr stod source condition c1
    elim cond_result_aa [
      | none ↦ done (false, c2)
      | some aa ↦ check_if aa c2 >>= emit_body stod source if_body >>= λ p.
          emit_else stod source else_body pre_cond_bb_id p.0 (push_link pre_cond_bb_id p.0 p.1)
    ]
  emit_stmt stod source (stmt_node (local_def name init_expr) b e) c =
      token_to_sv name source >>= λ var_name.
      emit_expr stod source init_expr c >>= finish_def source name (src_end init_expr) var_name
  emit_stmt stod source (stmt_node (expr_stmt expr) b e) c =
      emit_expr stod source expr c >>= has_address
  emit_stmt stod source (stmt_node (detup_def names tuple_expr) b e) c = done (true, c)
  emit_stmt stod source (stmt_node (native_stub params name) b e) c = done (true, c)
  emit_stmt stod source (stmt_node (import_stmt target) b e) c = done (true, c)

  pub emit_else : (Text → Run ℕ) → Text → OptStmt → ℤ → ℤ → Conversion → Run (Bool × Conversion)
  emit_else stod source no_stmt pre_id if_id c = end_if pre_id if_id c
  emit_else stod source (just_stmt s) pre_id if_id c =
      begin_else c >>= emit_body stod source s >>= end_else pre_id

  -- `emit_block` of a body, with the id of the block or -1.
  pub emit_body : (Text → Run ℕ) → Text → StmtNode → Conversion → Run (ℤ × Conversion)
  emit_body stod source (stmt_node (block items) b e) c = do
    (bb_id, c1) ← add_block c
    emit_stmts stod source items c1 >>= block_result bb_id
  emit_body stod source (stmt_node other b e) c = fault bad_optional

  pub emit_stmts : (Text → Run ℕ) → Text → StmtList → Conversion → Run (Bool × Conversion)
  emit_stmts stod source no_stmts c = done (true, c)
  emit_stmts stod source (and_stmt s ss) c = do
    (ok, c1) ← emit_stmt stod source s c
    elim ok [ true ↦ emit_stmts stod source ss c1 | false ↦ done (false, c1) ]

-- `source_map.at(id)`, which throws on a missing id.
abbrev source_at : List (ℕ × Text) → ℕ → Run Text
source_at [] id = fault bad_index
source_at (entry ∷ entries) id = if entry.0 == id then done entry.1 else source_at entries id

-- One pass over the statements of all units.
unfoldable pub emit_units :
    (Text → Run ℕ) → List (ℕ × Text) → FullAst → Conversion → Run (Bool × Conversion)
unfolding emit_stmt
emit_units stod source_map [] c = done (true, c)
emit_units stod source_map (ast ∷ asts) c = do
  source ← source_at source_map ast.src_id
  (ok, c1) ← emit_stmt stod source ast.stmt_p c
  let rest = emit_units stod source_map asts c1
  if ok then rest else done (false, c1)

abbrev result_of : Bool × Conversion → Option FullIr
result_of (false, c) = none
result_of (true, c) =
    if ltb 0 c.error_count
    then none
    else some (record {
      cfg_list = c.result_cfgs;
      constants = c.proto_consts;
      pre_objects = c.proto_heap_objs;
      main_id = c.proto_main_id;
    })

-- `operator()` of a fresh converter: the pass that collects the functions, and the one that emits.
unfoldable pub convert :
    (Text → Run ℕ) → List (Text × ℤ) → List (ℕ × Text) → FullAst → Run (Option FullIr)
unfolding emit_units fresh_conversion
convert stod native_proc_ids source_map asts = do
  (collected, c1) ← emit_units stod source_map asts (fresh_conversion native_proc_ids)
  let second = emit_units stod source_map asts (record c1 { prepassing = false })
  if collected then (second >>= λ p. done (result_of p)) else done none
