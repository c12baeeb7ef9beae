-- ===== src/Ir/Convert/PartSteps.antt =====
-- The parts of statements, on a newest graph with a newest block.
use minuet_lang_mirror.Base.{
  ℤ, pos, negsuc, ◌+ℤ◌, ◌≡◌, refl, sym, ap, ◌∙◌, true, List, [], ◌∷◌, ◌++◌, length, done,
}
use mathlib.Core.List.{append_assoc, append-nil}
use minuet_lang_mirror.Ir.Steps.{Op, Step, AbsAddress}
use minuet_lang_mirror.Ir.Graph.{BasicBlock, Cfg, add_bb, dud_bb_id}
use minuet_lang_mirror.Ir.Convert.State.{Conversion, add_block, newest_bb_id, push_link}
use minuet_lang_mirror.Ir.Convert.Parts.{
  add_steps, begin_while, check_while, end_while, begin_if, check_if, begin_else, end_else, end_if,
  emit_break,
}
use minuet_lang_mirror.Ir.Convert.Wrote.{at, extend, add_step-at}
use minuet_lang_mirror.Codegen.Layout.{marked, jump_step, check_step}
use minuet_lang_mirror.Codegen.Layout.Steps.{back-append, set_back-append}

pub extend-extend :
    (bb : BasicBlock) (xs ys : List Step) → extend (extend bb xs) ys ≡ extend bb (xs ++ ys)
extend-extend bb xs ys = rw (append_assoc bb.steps xs ys) refl

pub extend-nil : (bb : BasicBlock) → extend bb [] ≡ bb
extend-nil bb = rw (append-nil bb.steps) refl

abbrev pub fresh_block : BasicBlock
fresh_block = record { steps = []; truthy_id = dud_bb_id; falsy_id = dud_bb_id }

abbrev pub loop_close : List Step
loop_close = jump_step ∷ marked Op.meta_mark_continue ∷ []

abbrev pub loop_end : List Step
loop_end = marked Op.nop ∷ marked Op.meta_end_while ∷ []

abbrev pub branch_end : List Step
branch_end = marked Op.nop ∷ marked Op.meta_end_if_else ∷ []

module _ (before : List Cfg) where
  pub add_steps-at :
      (blocks : List BasicBlock) (ss : List Step) (c : Conversion) (bb : BasicBlock)
      → add_steps ss (at c before blocks bb) ≡ done (at c before blocks (extend bb ss))
  unfolding add_steps
  add_steps-at blocks [] c bb = ap (λ b. done (at c before blocks b)) (sym (extend-nil bb))
  add_steps-at blocks (s ∷ ss) c bb = rw (add_step-at before blocks s c bb) (
      add_steps-at blocks ss c (extend bb (s ∷ []))
      ∙ ap (λ b. done (at c before blocks b)) (extend-extend bb (s ∷ []) ss))

  pub add_block-at :
      (blocks : List BasicBlock) (c : Conversion) (bb : BasicBlock)
      → add_block (at c before blocks bb)
        ≡ done (pos (length (blocks ++ bb ∷ [])), at c before (blocks ++ bb ∷ []) fresh_block)
  unfolding add_block add_bb
  add_block-at blocks c bb =
      let g = blocks ++ bb ∷ [] in
      rw (back-append before g, set_back-append before g (g ++ fresh_block ∷ [])) refl

  abbrev pub newest_id : List BasicBlock → BasicBlock → ℤ
  newest_id blocks bb = pos (length (blocks ++ bb ∷ [])) +ℤ negsuc 0

  pub newest_bb_id-at :
      (blocks : List BasicBlock) (c : Conversion) (bb : BasicBlock)
      → newest_bb_id (at c before blocks bb) ≡ done (newest_id blocks bb)
  unfolding newest_bb_id
  newest_bb_id-at blocks c bb = rw (back-append before (blocks ++ bb ∷ [])) refl

  pub begin_while-at :
      (blocks : List BasicBlock) (c : Conversion) (bb : BasicBlock)
      → begin_while (at c before blocks bb)
        ≡ done (
          newest_id blocks bb,
          at c before blocks (extend bb (marked Op.meta_begin_while ∷ marked Op.nop ∷ [])),
        )
  unfolding begin_while
  begin_while-at blocks c bb =
      rw
        (
          newest_bb_id-at blocks c bb,
          add_steps-at blocks (marked Op.meta_begin_while ∷ marked Op.nop ∷ []) c bb,
        )
        refl

  pub begin_if-at :
      (blocks : List BasicBlock) (c : Conversion) (bb : BasicBlock)
      → begin_if (at c before blocks bb)
        ≡ done (
          newest_id blocks bb,
          at c before blocks (extend bb (marked Op.meta_begin_if_else ∷ [])),
        )
  unfolding begin_if
  begin_if-at blocks c bb =
      rw
        (newest_bb_id-at blocks c bb, add_step-at before blocks (marked Op.meta_begin_if_else) c bb)
        refl

  pub check_while-at :
      (blocks : List BasicBlock) (aa : AbsAddress) (c : Conversion) (bb : BasicBlock)
      → check_while aa (at c before blocks bb)
        ≡ done
            (at c before blocks (extend bb (check_step aa ∷ marked Op.meta_mark_while_check ∷ [])))
  unfolding check_while
  check_while-at blocks aa =
      add_steps-at blocks (check_step aa ∷ marked Op.meta_mark_while_check ∷ [])

  pub check_if-at :
      (blocks : List BasicBlock) (aa : AbsAddress) (c : Conversion) (bb : BasicBlock)
      → check_if aa (at c before blocks bb)
        ≡ done (
            at c before blocks (extend bb (check_step aa ∷ marked Op.meta_mark_if_else_check ∷ [])))
  unfolding check_if
  check_if-at blocks aa =
      add_steps-at blocks (check_step aa ∷ marked Op.meta_mark_if_else_check ∷ [])

  pub begin_else-at :
      (blocks : List BasicBlock) (c : Conversion) (bb : BasicBlock)
      → begin_else (at c before blocks bb)
        ≡ done (
            at c before blocks
              (extend bb (jump_step ∷ marked Op.meta_mark_if_else_alt ∷ marked Op.nop ∷ [])))
  unfolding begin_else
  begin_else-at blocks =
      add_steps-at blocks (jump_step ∷ marked Op.meta_mark_if_else_alt ∷ marked Op.nop ∷ [])

  pub emit_break-at :
      (blocks : List BasicBlock) (c : Conversion) (bb : BasicBlock)
      → emit_break (at c before blocks bb)
        ≡ done (true, at c before blocks (extend bb (jump_step ∷ marked Op.meta_mark_break ∷ [])))
  unfolding emit_break
  emit_break-at blocks c bb =
      rw (add_steps-at blocks (jump_step ∷ marked Op.meta_mark_break ∷ []) c bb) refl

  pub end_while-at :
      (blocks : List BasicBlock) (pre_id id : ℤ) (c : Conversion) (bb : BasicBlock)
      → let g = blocks ++ extend bb loop_close ∷ [] in
        end_while pre_id (id, at c before blocks bb)
        ≡ done (
          true,
          at
              (push_link pre_id (pos (length g)) (push_link pre_id id (push_link id pre_id c)))
              before
              g
              (extend fresh_block loop_end),
        )
  unfolding end_while push_link
  end_while-at blocks pre_id id c bb =
      let g = blocks ++ extend bb loop_close ∷ [] in
      let c2 = push_link pre_id id (push_link id pre_id c) in
      rw
        (
          add_steps-at blocks loop_close c bb,
          add_block-at blocks c2 (extend bb loop_close),
          add_steps-at g loop_end c2 fresh_block,
        )
        refl

  pub end_if-at :
      (blocks : List BasicBlock) (pre_id id : ℤ) (c : Conversion) (bb : BasicBlock)
      → let g = blocks ++ bb ∷ [] in
        end_if pre_id id (at c before blocks bb)
        ≡ done (
          true,
          at
              (push_link pre_id (pos (length g)) (push_link id (pos (length g)) c))
              before
              g
              (extend fresh_block branch_end),
        )
  unfolding end_if push_link
  end_if-at blocks pre_id id c bb =
      let g = blocks ++ bb ∷ [] in
      rw (add_block-at blocks c bb, add_steps-at g branch_end c fresh_block) refl

  pub end_else-at :
      (blocks : List BasicBlock) (pre_id id : ℤ) (c : Conversion) (bb : BasicBlock)
      → let g = blocks ++ extend bb branch_end ∷ [] in
        end_else pre_id (id, at c before blocks bb)
        ≡ done
            (true, at (push_link id (pos (length g)) (push_link pre_id id c)) before g fresh_block)
  unfolding end_else push_link
  end_else-at blocks pre_id id c bb =
      let c1 = push_link pre_id id c in
      rw (add_steps-at blocks branch_end c bb, add_block-at blocks c1 (extend bb branch_end)) refl
