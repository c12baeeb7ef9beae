-- ===== src/Ir/Convert/ExprSteps.antt =====
-- The emission of an expression always ends, in straight steps behind those of the newest block.
use minuet_lang_mirror.Base.{
  ℕ, ℤ, pos, pos_part, zero, suc, refl, Bool, true, false, Option, none, some, List, Run, done,
  ◌>>=◌, wrap16,
}
use minuet_lang_mirror.Frontend.Lexicals.{Text}
use minuet_lang_mirror.Syntax.Trees.{
  ExprNode, expr_node, literal, sequence, lambda, call, unary, binary, assign, ExprList, no_exprs,
  and_expr, src_begin, src_end,
}
use minuet_lang_mirror.Ir.Steps.{Op, AbsAddress, oper_unary}
use minuet_lang_mirror.Ir.Graph.{BasicBlock, Cfg}
use minuet_lang_mirror.Ir.Convert.State.{Conversion, gen_temp_aa}
use minuet_lang_mirror.Ir.Convert.Exprs.{
  Located, finish_call, pass_argument, push_item, emit_expr, emit_items, emit_args, immediate_aa,
  move_step, expr_count,
}
use minuet_lang_mirror.Ir.Convert.Wrote.{
  Gives, Tagged, TaggedOpt, Always, Named, at, Wrote, then_Wrote, step_Wrote, unchanged,
}
use minuet_lang_mirror.Ir.Convert.Lowering.{move_lowers, unary_lowers, three_lowers}
use minuet_lang_mirror.Ir.Convert.LiteralSteps.{Writes, literal_Writes}
use minuet_lang_mirror.Ir.Convert.Emitting.{
  finish_unary-Writes, finish_binary-Writes, finish_assign-Writes, finish_call-Writes,
  finish_sequence-Writes,
}

module _ (before : List Cfg) (blocks : List BasicBlock) (stod : Text → Run ℕ)
    (stod_ok : (t : Text) → Gives (λ d. Unit {0}) (stod t)) (source : Text) where
  call_rest :
      (xs : ExprList) (n : ℕ) (real : ℤ)
      → Writes before blocks Always (emit_args stod source xs n)
      → (o : Option AbsAddress)
      → Writes before blocks TaggedOpt (λ c. elim o as (λ x. Run Located) [
        | none ↦ done (none, c)
        | some callee ↦ emit_args stod source xs n c >>= finish_call real callee
      ])
  call_rest xs n real args none c bb named = unchanged before blocks none c bb tt named
  call_rest xs n real args (some callee) c bb named =
      then_Wrote before blocks _ (args c bb named)
        (λ passed c1 bb1 t n'. finish_call-Writes before blocks real callee passed c1 bb1 n')

  item_rest :
      (xs : ExprList) (aa : AbsAddress)
      → Tagged aa
      → Writes before blocks Always (emit_items stod source xs aa)
      → (o : Option AbsAddress) → TaggedOpt o
      → Writes before blocks Always (λ c. elim o as (λ x. Run (Bool × Conversion)) [
        | none ↦ done (false, c)
        | some item ↦ push_item aa item c >>= emit_items stod source xs aa
      ])
  unfolding push_item
  item_rest xs aa ta rest none t c bb named = unchanged before blocks false c bb tt named
  item_rest xs aa ta rest (some item) t c bb named =
      step_Wrote before blocks _ c bb _
        (three_lowers aa item (immediate_aa (pos 1)) Op.seq_obj_push ta t refl refl) refl
        (λ bb1. rest c bb1 named)

  arg_rest :
      (xs : ExprList) (n : ℕ)
      → Writes before blocks Always (emit_args stod source xs n)
      → (o : Option AbsAddress) → TaggedOpt o
      → Writes before blocks Always (λ c. elim o as (λ x. Run (Bool × Conversion)) [
        | none ↦ done (false, c)
        | some arg ↦ pass_argument arg c >>= emit_args stod source xs n
      ])
  unfolding pass_argument gen_temp_aa
  arg_rest xs n rest none t c bb named = unchanged before blocks false c bb tt named
  arg_rest xs n rest (some arg) t c bb named =
      let (dest, c1) = gen_temp_aa c in
      step_Wrote before blocks (move_step dest arg) c1 bb _ (move_lowers dest arg refl t) refl
        (λ bb1. rest c1 bb1 (record { in_globals = named.in_globals; in_locals = named.in_locals }))

  mutual
    unfolding emit_expr gen_temp_aa push_item pass_argument

    expr_Writes : (x : ExprNode) → Writes before blocks TaggedOpt (emit_expr stod source x)
    expr_Writes (expr_node (literal token) b e) c bb named =
        literal_Writes before blocks stod stod_ok source token c bb named
    expr_Writes (expr_node (sequence items is_tuple) b e) c bb named =
        let (aa, c1) = gen_temp_aa c in
        step_Wrote before blocks (oper_unary (record { arg_0 = aa; op = Op.make_seq })) c1 bb _
          (unary_lowers aa Op.make_seq refl refl) refl
          λ bb1.
            then_Wrote before blocks _
              (items_Writes items aa refl c1 bb1
                (record { in_globals = named.in_globals; in_locals = named.in_locals }))
              (λ pushed c2 bb2 t n.
                finish_sequence-Writes before blocks is_tuple aa refl pushed c2 bb2 n)
    expr_Writes (expr_node (call args callee) b e) c bb named =
        then_Wrote before blocks _ (expr_Writes callee c bb named) (λ o c1 bb1 t n.
          call_rest args (pos_part (wrap16 (pos (expr_count args))))
            (wrap16 (pos (expr_count args)))
            (args_Writes args (pos_part (wrap16 (pos (expr_count args))))) o c1 bb1 n)
    expr_Writes (expr_node (unary inner op) b e) c bb named =
        then_Wrote before blocks _ (expr_Writes inner c bb named) (λ o c1 bb1 t n.
          finish_unary-Writes before blocks source (src_begin inner) (src_end inner) op o t c1 bb1
            n)
    expr_Writes (expr_node (binary left right op) b e) c bb named =
        then_Wrote before blocks _ (expr_Writes left c bb named) λ o c1 bb1 t n.
          then_Wrote before blocks _ (expr_Writes right c1 bb1 n) (λ o' c2 bb2 t' n'.
            finish_binary-Writes before blocks source (src_begin left) (src_end right) op o o' t t'
              c2 bb2 n')
    expr_Writes (expr_node (assign left value) b e) c bb named =
        then_Wrote before blocks _ (expr_Writes left c bb named) λ o c1 bb1 t n.
          then_Wrote before blocks _ (expr_Writes value c1 bb1 n)
            (λ o' c2 bb2 t' n'. finish_assign-Writes before blocks o o' t t' c2 bb2 n')
    expr_Writes (expr_node (lambda params body) b e) c bb named =
        unchanged before blocks none c bb tt named

    items_Writes :
        (xs : ExprList) (aa : AbsAddress)
        → Tagged aa
        → Writes before blocks Always (emit_items stod source xs aa)
    items_Writes no_exprs aa ta c bb named = unchanged before blocks true c bb tt named
    items_Writes (and_expr x xs) aa ta c bb named =
        then_Wrote before blocks _ (expr_Writes x c bb named)
          (λ o c1 bb1 t n. item_rest xs aa ta (items_Writes xs aa ta) o t c1 bb1 n)

    args_Writes : (xs : ExprList) (n : ℕ) → Writes before blocks Always (emit_args stod source xs n)
    args_Writes no_exprs n c bb named = unchanged before blocks true c bb tt named
    args_Writes (and_expr x xs) zero c bb named = unchanged before blocks true c bb tt named
    args_Writes (and_expr x xs) (suc n) c bb named =
        then_Wrote before blocks _ (expr_Writes x c bb named)
          (λ o c1 bb1 t n'. arg_rest xs n (args_Writes xs n) o t c1 bb1 n')

-- Whatever the expression, its conversion either gives a result or is ended by an exception of `std::stoi`, `std::stod` or `string_view::substr`: no index, pointer or optional is misused. With an address or without, all it has done to the graphs is to append steps to the newest block of the newest graph, and each of these steps is one that the emitter has bytecode for and is no jump. The pending links are the same. The address, if there is one, and those of all names can stand in an instruction. Asked of the start is a newest block, and names with such addresses; `std::stod` gives a value or throws.
pub emit_expr-Wrote :
    (before : List Cfg) (blocks : List BasicBlock) (stod : Text → Run ℕ) (source : Text)
    (x : ExprNode) (c : Conversion) (bb : BasicBlock)
    → ((t : Text) → Gives (λ d. Unit {0}) (stod t))
    → Named c
    → Gives
        (Wrote before blocks TaggedOpt c.pending_links bb)
        (emit_expr stod source x (at c before blocks bb))
emit_expr-Wrote before blocks stod source x c bb stod_ok named =
    expr_Writes before blocks stod stod_ok source x c bb named
