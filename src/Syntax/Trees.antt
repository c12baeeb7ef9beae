-- ===== src/Syntax/Trees.antt =====
-- src/syntax/exprs.hpp, stmts.hpp and ast.hpp: expressions, statements and whole programs.
use minuet_lang_mirror.Base.{ℕ, Bool, List}
use minuet_lang_mirror.Frontend.Lexicals.{Token}
use minuet_lang_mirror.Semantics.Enums.{Operator}

-- A node is its data and the bounds of its source; `no_stmt` is the null pointer of an absent `else`.
mutual
  pub data ExprNode : Type 0 where
    expr_node : ExprData → ℕ → ℕ → ExprNode

  pub data ExprData : Type 0 where
    literal : Token → ExprData
    sequence : ExprList → Bool → ExprData
    lambda : List Token → StmtNode → ExprData
    call : ExprList → ExprNode → ExprData
    unary : ExprNode → Operator → ExprData
    binary : ExprNode → ExprNode → Operator → ExprData
    assign : ExprNode → ExprNode → ExprData

  pub data ExprList : Type 0 where
    no_exprs : ExprList
    and_expr : ExprNode → ExprList → ExprList

  pub data StmtNode : Type 0 where
    stmt_node : StmtData → ℕ → ℕ → StmtNode

  pub data StmtData : Type 0 where
    expr_stmt : ExprNode → StmtData
    local_def : Token → ExprNode → StmtData
    detup_def : List Token → ExprNode → StmtData
    if_stmt : ExprNode → StmtNode → OptStmt → StmtData
    return_stmt : ExprNode → StmtData
    while_stmt : ExprNode → StmtNode → StmtData
    break_stmt : StmtData
    block : StmtList → StmtData
    function : List Token → Token → StmtNode → StmtData
    native_stub : List Token → Token → StmtData
    import_stmt : Token → StmtData

  pub data StmtList : Type 0 where
    no_stmts : StmtList
    and_stmt : StmtNode → StmtList → StmtList

  pub data OptStmt : Type 0 where
    no_stmt : OptStmt
    just_stmt : StmtNode → OptStmt

abbrev pub src_begin : ExprNode → ℕ
src_begin (expr_node node b e) = b

abbrev pub src_end : ExprNode → ℕ
src_end (expr_node node b e) = e

-- `SourcedAST`, and `FullAST`, a list of them.
pub record SourcedAst : Type 0 where
  pub stmt_p : StmtNode
  pub src_id : ℕ

abbrev pub FullAst : Type 0
FullAst = List SourcedAst
