-- ===== src/Tests/Convert.antt =====
-- Runs of src/ir/convert_ast.cpp on small expressions.
use minuet_lang_mirror.Base.{
  ℕ, ◌≡◌, refl, false, arith, [], ◌∷◌, ◌++◌, pos, true, Run, done, read_at,
}
use minuet_lang_mirror.Frontend.Lexicals.{Token, Text, TokenType}
use minuet_lang_mirror.Semantics.Enums.{Operator}
use minuet_lang_mirror.Syntax.Trees.{
  ExprNode, StmtNode, expr_node, literal, binary, stmt_node, while_stmt, if_stmt, break_stmt,
  expr_stmt, block, no_stmts, and_stmt, just_stmt,
}
use minuet_lang_mirror.Runtime.Values.{int32, boolean}
use minuet_lang_mirror.Ir.Steps.{AbsAddress, AbsAddrTag}
use minuet_lang_mirror.Ir.Graph.{BasicBlock, dud_bb_id}
use minuet_lang_mirror.Ir.Convert.State.{Conversion, fresh_conversion, resolve_constant_aa}
use minuet_lang_mirror.Ir.Convert.Exprs.{emit_expr}
use minuet_lang_mirror.Ir.Convert.Wrote.{Gives, given, TaggedOpt, Wrote, at}
use minuet_lang_mirror.Ir.Convert.ExprSteps.{emit_expr-Wrote}
use minuet_lang_mirror.Ir.Convert.Built.{Built}
use minuet_lang_mirror.Ir.Convert.Building.{Good}
use minuet_lang_mirror.Ir.Convert.StmtSteps.{emit_stmt-Built}
use minuet_lang_mirror.Ir.Convert.Stmts.{emit_stmt}
use minuet_lang_mirror.Ir.Convert.Pool.{resolve_constant_aa-new}
use minuet_lang_mirror.Ir.Convert.Placed.{outline_stmt}

-- "1+2"
abbrev source : Text
source = 49 ∷ 43 ∷ 50 ∷ []

abbrev number_at : ℕ → ExprNode
number_at n =
    expr_node
      (literal (record { type = TokenType.literal_int; start = n; end = n; line = 1; col = 1 })) n n

abbrev one_plus_two : ExprNode
one_plus_two = expr_node (binary (number_at 0) (number_at 2) Operator.add) 0 2

abbrev no_doubles : Text → Run ℕ
no_doubles t = done 0

abbrev empty_bb : BasicBlock
empty_bb = record { steps = []; truthy_id = dud_bb_id; falsy_id = dud_bb_id }

abbrev start : Conversion
unfolding fresh_conversion
start = fresh_conversion []

emit_expr-Wrote_example :
    Gives
      (Wrote [] [] TaggedOpt [] empty_bb)
      (emit_expr no_doubles source one_plus_two (at start [] [] empty_bb))
unfolding start fresh_conversion
emit_expr-Wrote_example =
    emit_expr-Wrote [] [] no_doubles source one_plus_two start empty_bb (λ t. given tt)
      (record { in_globals = tt; in_locals = tt })

abbrev block_of : StmtNode → StmtNode
block_of s = stmt_node (block (and_stmt s no_stmts)) 0 2

-- while 1 { if 2 { break; } else { 1+2; } }
abbrev loop_with_break : StmtNode
loop_with_break =
    stmt_node
      (while_stmt (number_at 0) (
        block_of (
          stmt_node
            (if_stmt (number_at 2) (block_of (stmt_node break_stmt 0 2))
              (just_stmt (block_of (stmt_node (expr_stmt one_plus_two) 0 2))))
            0 2)))
      0 2

emit_stmt-Built_example :
    Gives
      (Built [] Good false (outline_stmt loop_with_break) [] [])
      (emit_stmt no_doubles source loop_with_break (at start [] [] empty_bb))
unfolding start fresh_conversion
emit_stmt-Built_example =
    emit_stmt-Built [] [] no_doubles source false loop_with_break start empty_bb (λ t. given tt)
      refl (record { in_globals = tt; in_locals = tt })

resolve_constant_aa-new_example :
    (aa : AbsAddress) × (c' : Conversion) × (resolve_constant_aa (49 ∷ []) (int32 (pos 1)) start
      ≡ (aa, c'))
    × (aa.tag ≡ AbsAddrTag.constant)
    × (c'.proto_consts ≡ start.proto_consts ++ int32 (pos 1) ∷ [])
    × (read_at c'.proto_consts aa.id ≡ done (int32 (pos 1)))
    × (resolve_constant_aa (49 ∷ []) (boolean true) c' ≡ (aa, c'))
unfolding start fresh_conversion
resolve_constant_aa-new_example =
    resolve_constant_aa-new (49 ∷ []) (int32 (pos 1)) (boolean true) start refl (omega arith)

-- A function named `t`.
abbrev with_function : Conversion
unfolding start fresh_conversion
with_function = record start {
  globals = (116 ∷ [], record { tag = AbsAddrTag.immediate; id = pos 0 }) ∷ [];
}

-- A function whose name is the first byte of the source.
abbrev first_name : Token
first_name = record { type = TokenType.identifier; start = 0; end = 0; line = 1; col = 1 }
