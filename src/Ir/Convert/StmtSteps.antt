-- ===== src/Ir/Convert/StmtSteps.antt =====
-- The emission of statements always ends, in structured code behind the steps of the newest graph.
use minuet_lang_mirror.Base.{ℕ, ◌≡◌, refl, Bool, true, List, [], ◌∷◌, ◌++◌, length, Run}
use minuet_lang_mirror.Frontend.Lexicals.{Text}
use minuet_lang_mirror.Syntax.Trees.{
  StmtNode, stmt_node, StmtList, expr_stmt, local_def, detup_def, if_stmt, return_stmt, while_stmt,
  break_stmt, block, function, native_stub, import_stmt, no_stmts, and_stmt, no_stmt, just_stmt,
  src_end,
}
use minuet_lang_mirror.Ir.Graph.{BasicBlock, Cfg}
use minuet_lang_mirror.Ir.Convert.State.{Conversion}
use minuet_lang_mirror.Ir.Convert.Parts.{finish_def, finish_return}
use minuet_lang_mirror.Ir.Convert.Stmts.{emit_stmt, emit_body, emit_stmts, has_address}
use minuet_lang_mirror.Ir.Convert.Wrote.{bind_Gives, lexeme-Gives, Gives, Named, at, extend}
use minuet_lang_mirror.Ir.Convert.Built.{flat, Built, after_Built}
use minuet_lang_mirror.Ir.Convert.PartSteps.{
  fresh_block, add_block-at, newest_id, begin_while-at, begin_if-at, emit_break-at,
}
use minuet_lang_mirror.Ir.Convert.Building.{Good, Builds, BuildsBody, straight_Built}
use minuet_lang_mirror.Ir.Convert.LoopSteps.{loop_opening, while_Built}
use minuet_lang_mirror.Ir.Convert.Branching.{opening}
use minuet_lang_mirror.Ir.Convert.BranchSteps.{if_Built, if_else_Built}
use minuet_lang_mirror.Codegen.Layout.{leave, valid}
use minuet_lang_mirror.Codegen.Layout.Pieces.{both_true}
use mathlib.Core.Path.{subst}
use minuet_lang_mirror.Ir.Convert.SimpleSteps.{
  has_address_Built, finish_return_Built, finish_def_Built,
}
use minuet_lang_mirror.Ir.Convert.Placed.{
  outline_stmt, outline_all, placed, placed_body, placed_all,
}
use minuet_lang_mirror.Ir.Convert.Sequencing.{
  fresh-flat, then_follows, list_rest, body_block, body_result, nothing_Built,
}

module _ (before : List Cfg) (stod : Text → Run ℕ)
    (stod_ok : (t : Text) → Gives (λ d. Unit {0}) (stod t)) (source : Text) where
  mutual
    unfolding emit_stmt valid

    stmt_Built :
        (inside : Bool) (s : StmtNode)
        → placed inside s ≡ true
        → Builds before inside (outline_stmt s) (emit_stmt stod source s)
    stmt_Built inside (stmt_node (function params name body) b e) h = absurd (cc)
    stmt_Built inside (stmt_node (block items) b e) h =
        body_block before stod stod_ok source inside items (stmts_Built inside items h)
    stmt_Built inside (stmt_node (return_stmt result) b e) h = λ blocks bb c named.
        then_follows before stod stod_ok source inside result blocks bb bb c finish_return named
          (λ o c1 ss t plain named1 same.
            finish_return_Built before inside blocks bb ss plain c.pending_links o c1 t named1 same)
    stmt_Built inside (stmt_node (while_stmt check body) b e) h = λ blocks bb c named.
        rw (begin_while-at before blocks c bb) (
          then_follows before stod stod_ok source inside check blocks bb (extend bb loop_opening) c
            _ named
            (λ o c1 ss t plain named1 same.
              while_Built before inside blocks bb ss (emit_body stod source body)
                (newest_id before blocks bb) (body_Built true body h) o c1 c.pending_links t plain
                named1 same))
    stmt_Built inside (stmt_node break_stmt b e) h = λ blocks bb c named.
        rw (emit_break-at before blocks c bb) (
          straight_Built before inside true c.pending_links blocks bb _ c (leave, refl, h, refl)
            named refl)
    stmt_Built inside (stmt_node (if_stmt condition if_body no_stmt) b e) h = λ blocks bb c named.
        let (first, others) = both_true (placed_body inside if_body) true h in
        rw (begin_if-at before blocks c bb) (
          then_follows before stod stod_ok source inside condition blocks bb (extend bb opening) c _
            named
            (λ o c1 ss t plain named1 same.
              if_Built before inside blocks bb ss (emit_body stod source if_body)
                (newest_id before blocks bb) (body_Built inside if_body first) o c1 c.pending_links
                t plain named1 same))
    stmt_Built inside (stmt_node (if_stmt condition if_body (just_stmt s)) b e) h =
        λ blocks bb c named.
          let (first, others) = both_true (placed_body inside if_body) (placed_body inside s) h in
          rw (begin_if-at before blocks c bb) (
            then_follows before stod stod_ok source inside condition blocks bb (extend bb opening) c
              _ named
              (λ o c1 ss t plain named1 same.
                if_else_Built before inside blocks bb ss (emit_body stod source if_body)
                  (emit_body stod source s) (newest_id before blocks bb)
                  (body_Built inside if_body first) (body_Built inside s others) o c1
                  c.pending_links t plain named1 same))
    stmt_Built inside (stmt_node (local_def name init_expr) b e) h = λ blocks bb c named.
        bind_Gives (lexeme-Gives name source) λ var_name read.
          then_follows before stod stod_ok source inside init_expr blocks bb bb c
            (finish_def source name (src_end init_expr) var_name) named
            (λ o c1 ss t plain named1 same.
              finish_def_Built before inside blocks bb ss plain c.pending_links source name
                (src_end init_expr) var_name o c1 t named1 same)
    stmt_Built inside (stmt_node (expr_stmt expr) b e) h = λ blocks bb c named.
        then_follows before stod stod_ok source inside expr blocks bb bb c has_address named
          (λ o c1 ss t plain named1 same.
            has_address_Built before inside blocks bb ss plain c.pending_links o c1 named1 same)
    stmt_Built inside (stmt_node (detup_def names tuple_expr) b e) h =
        nothing_Built before stod stod_ok source inside
    stmt_Built inside (stmt_node (native_stub params name) b e) h =
        nothing_Built before stod stod_ok source inside
    stmt_Built inside (stmt_node (import_stmt target) b e) h =
        nothing_Built before stod stod_ok source inside

    body_Built :
        (inside : Bool) (s : StmtNode)
        → placed_body inside s ≡ true
        → BuildsBody before inside (outline_stmt s) (emit_body stod source s)
    body_Built inside (stmt_node (block items) b e) h = λ blocks bb c named.
        rw (add_block-at before blocks c bb) (
          body_result before stod stod_ok source inside _ _ (length (blocks ++ bb ∷ []))
            (emit_stmts stod source items (at c before (blocks ++ bb ∷ []) fresh_block))
            (subst
              (λ z.
                Gives (Built before Good inside (outline_all items) z c.pending_links)
                  (emit_stmts stod source items (at c before (blocks ++ bb ∷ []) fresh_block)))
              (fresh-flat (blocks ++ bb ∷ []))
              (stmts_Built inside items h (blocks ++ bb ∷ []) fresh_block c named)))
    body_Built inside (stmt_node other b e) h = absurd (cc)

    stmts_Built :
        (inside : Bool) (ss : StmtList)
        → placed_all inside ss ≡ true
        → Builds before inside (outline_all ss) (emit_stmts stod source ss)
    stmts_Built inside no_stmts h = nothing_Built before stod stod_ok source inside
    stmts_Built inside (and_stmt s ss) h = λ blocks bb c named.
        let (first, others) = both_true (placed inside s) (placed_all inside ss) h in
        after_Built before _ (stmt_Built inside s first blocks bb c named)
          (λ ok c1 blocks1 bb1 new named1 same pay.
            list_rest before stod stod_ok source inside ss (stmts_Built inside ss others) ok c1
              blocks1 bb1 _ _ new named1 same pay)

-- Whatever the statement, if bodies are blocks, no function stands inside it and no break outside of a loop (or, with `inside`, anywhere), its conversion either gives a result or is ended by an exception of `std::stoi`, `std::stod` or `string_view::substr`: no index, pointer or optional is misused. Afterwards more links wait behind the old ones, and the names still have addresses that an instruction can hold. If the statement succeeds, and no new link names the id of a body that failed, the newest graph has, in the order of its blocks, its old steps and then exactly the steps of some structured code whose breaks stand inside loops (or, with `inside`, anywhere): the marks of every loop and conditional are nested and complete, across all the blocks. The loops, conditionals and breaks of that code are those of the statement, in the same order and with the same nesting. Asked of the start is a newest block, and names with such addresses; `std::stod` gives a value or throws.
pub emit_stmt-Built :
    (before : List Cfg) (blocks : List BasicBlock) (stod : Text → Run ℕ) (source : Text)
    (inside : Bool) (s : StmtNode) (c : Conversion) (bb : BasicBlock)
    → ((t : Text) → Gives (λ d. Unit {0}) (stod t))
    → placed inside s ≡ true
    → Named c
    → Gives
        (Built before Good inside (outline_stmt s) (flat (blocks ++ bb ∷ [])) c.pending_links)
        (emit_stmt stod source s (at c before blocks bb))
emit_stmt-Built before blocks stod source inside s c bb stod_ok h named =
    stmt_Built before stod stod_ok source inside s h blocks bb c named
