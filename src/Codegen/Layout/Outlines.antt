-- ===== src/Codegen/Layout/Outlines.antt =====
-- The loops, conditionals and breaks of structured code, without what stands between them.
use minuet_lang_mirror.Codegen.Layout.{Code, skip, leave, straight, seq, loop, branch, branch_else}

-- A sequence of them, with the outlines of their bodies.
pub data Outline : Type 0 where
  nothing : Outline
  and_leave : Outline → Outline
  and_loop and_branch : Outline → Outline → Outline
  and_branch_else : Outline → Outline → Outline → Outline

abbrev pub join : Outline → Outline → Outline
join nothing p = p
join (and_leave rest) p = and_leave (join rest p)
join (and_loop body rest) p = and_loop body (join rest p)
join (and_branch body rest) p = and_branch body (join rest p)
join (and_branch_else body other rest) p = and_branch_else body other (join rest p)

-- What stands in a condition counts as the beginning of the body.
abbrev pub outline : Code → Outline
outline skip = nothing
outline leave = and_leave nothing
outline (straight s) = nothing
outline (seq a b) = join (outline a) (outline b)
outline (loop check condition body) = and_loop (join (outline check) (outline body)) nothing
outline (branch check condition body) = and_branch (join (outline check) (outline body)) nothing
outline (branch_else check condition body other) =
    and_branch_else (join (outline check) (outline body)) (outline other) nothing
