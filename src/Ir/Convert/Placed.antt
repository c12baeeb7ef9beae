-- ===== src/Ir/Convert/Placed.antt =====
-- Where the statements of a source stand.
use minuet_lang_mirror.Base.{Bool, true, false, ◌&&◌}
use minuet_lang_mirror.Codegen.Layout.Outlines.{
  Outline, nothing, and_leave, and_loop, and_branch, and_branch_else, join,
}
use minuet_lang_mirror.Syntax.Trees.{
  StmtNode, stmt_node, StmtList, OptStmt, if_stmt, while_stmt, break_stmt, block, function,
  no_stmts, and_stmt, no_stmt, just_stmt,
}

-- Bodies are blocks, no function stands inside another, and a break stands in a loop or, if
-- `inside`, anywhere.
abbrev mutual
  pub placed : Bool → StmtNode → Bool
  placed inside (stmt_node (function params name body) b e) = false
  placed inside (stmt_node (block items) b e) = placed_all inside items
  placed inside (stmt_node (while_stmt check body) b e) = placed_body true body
  placed inside (stmt_node break_stmt b e) = inside
  placed inside (stmt_node (if_stmt condition if_body else_body) b e) =
      placed_body inside if_body && placed_else inside else_body
  placed inside (stmt_node other b e) = true

  pub placed_else : Bool → OptStmt → Bool
  placed_else inside no_stmt = true
  placed_else inside (just_stmt s) = placed_body inside s

  pub placed_body : Bool → StmtNode → Bool
  placed_body inside (stmt_node (block items) b e) = placed_all inside items
  placed_body inside (stmt_node other b e) = false

  pub placed_all : Bool → StmtList → Bool
  placed_all inside no_stmts = true
  placed_all inside (and_stmt s ss) = placed inside s && placed_all inside ss

-- The loops, conditionals and breaks of a source, in its order.
abbrev mutual
  pub outline_stmt : StmtNode → Outline
  outline_stmt (stmt_node (block items) b e) = outline_all items
  outline_stmt (stmt_node (while_stmt check body) b e) = and_loop (outline_stmt body) nothing
  outline_stmt (stmt_node break_stmt b e) = and_leave nothing
  outline_stmt (stmt_node (if_stmt condition if_body no_stmt) b e) =
      and_branch (outline_stmt if_body) nothing
  outline_stmt (stmt_node (if_stmt condition if_body (just_stmt s)) b e) =
      and_branch_else (outline_stmt if_body) (outline_stmt s) nothing
  outline_stmt (stmt_node other b e) = nothing

  pub outline_all : StmtList → Outline
  outline_all no_stmts = nothing
  outline_all (and_stmt s ss) = join (outline_stmt s) (outline_all ss)
