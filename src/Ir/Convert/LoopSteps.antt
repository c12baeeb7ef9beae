-- ===== src/Ir/Convert/LoopSteps.antt =====
-- The emission of a loop, from the check on.
use minuet_lang_mirror.Codegen.Layout.Outlines.{Outline, nothing, and_loop}
use minuet_lang_mirror.Base.{
  ℤ, pos, ◌≡◌, refl, ap, ◌∙◌, Bool, true, false, Option, none, some, List, [], ◌∷◌, ◌++◌, length,
  Run, done, ◌>>=◌,
}
use mathlib.Core.List.{append_assoc}
use minuet_lang_mirror.Ir.Steps.{Op, Step, AbsAddress}
use minuet_lang_mirror.Ir.Graph.{BasicBlock, Cfg}
use minuet_lang_mirror.Ir.Convert.State.{Conversion, BbLink, push_link}
use minuet_lang_mirror.Ir.Convert.Wrote.{Gives, given, Plain, Tagged, TaggedOpt, Named, at, extend}
use minuet_lang_mirror.Ir.Convert.Built.{
  flat, flat-extend, whole-append, Shaped, Plain-Shaped, Built, built, after_Built,
}
use minuet_lang_mirror.Ir.Convert.Parts.{check_while, end_while}
use minuet_lang_mirror.Ir.Convert.PartSteps.{
  fresh_block, check_while-at, end_while-at, loop_close, loop_end,
}
use minuet_lang_mirror.Codegen.Layout.{loop, valid, marked, check_step}
use minuet_lang_mirror.Ir.Convert.Building.{
  Good, three_more, from_good, flat-fresh, BuildsBody, failed_Built,
}

-- The steps before the check.
abbrev pub loop_opening : List Step
loop_opening = marked Op.meta_begin_while ∷ marked Op.nop ∷ []

five_parts :
    (base a ss b ts d e : List Step)
    → ((((((base ++ a) ++ ss) ++ b) ++ ts) ++ d) ++ e)
      ≡ base ++ ((a ++ ss) ++ ((b ++ ts) ++ (d ++ e)))
five_parts base a ss b ts d e = simp (append_assoc) refl

loop-Shaped :
    (inside : Bool) {shape : Outline} (ss : List Step) (aa : AbsAddress) (ts : List Step)
    → Plain ss
    → Tagged aa
    → Shaped true shape ts
    → Shaped inside (and_loop shape nothing) (
        (marked Op.meta_begin_while ∷ marked Op.nop ∷ ss)
        ++ ((check_step aa ∷ marked Op.meta_mark_while_check ∷ ts) ++ (loop_close ++ loop_end)))
unfolding valid
loop-Shaped inside ss aa ts plain t (body, e', v', o') =
    let (check, e, v, o) = Plain-Shaped false ss plain in
    (loop check aa body, rw (e, e') refl, rw (v, t, v') refl, rw (o, o') refl)

loop-flat :
    (blocks : List BasicBlock) (bb : BasicBlock) (ss : List Step) (blocks1 : List BasicBlock)
    (bb1 : BasicBlock) (aa : AbsAddress) (ts : List Step)
    → flat (blocks1 ++ bb1 ∷ [])
      ≡ flat (
          blocks
          ++ extend
              (extend (extend bb loop_opening) ss)
              (check_step aa ∷ marked Op.meta_mark_while_check ∷ [])
            ∷ [])
        ++ ts
    → flat ((blocks1 ++ extend bb1 loop_close ∷ []) ++ extend fresh_block loop_end ∷ [])
      ≡ flat (blocks ++ bb ∷ [])
        ++ ((marked Op.meta_begin_while ∷ marked Op.nop ∷ ss)
            ++ ((check_step aa ∷ marked Op.meta_mark_while_check ∷ ts) ++ (loop_close ++ loop_end)))
loop-flat blocks bb ss blocks1 bb1 aa ts e =
    let checked = check_step aa ∷ marked Op.meta_mark_while_check ∷ [] in
    rw
      (
        flat-fresh (blocks1 ++ extend bb1 loop_close ∷ []) loop_end,
        flat-extend blocks1 bb1 loop_close,
        e,
        flat-extend blocks (extend (extend bb loop_opening) ss) checked,
        flat-extend blocks (extend bb loop_opening) ss,
        flat-extend blocks bb loop_opening,
      )
      (five_parts (flat (blocks ++ bb ∷ [])) loop_opening ss checked ts loop_close loop_end)

module _ (before : List Cfg) where
  -- Between the condition and the body of a loop.
  abbrev pub while_parts :
      (Conversion → Run (ℤ × Conversion))
      → ℤ
      → Option AbsAddress
      → Conversion
      → Run (Bool × Conversion)
  while_parts body pre_id o c = elim o as (λ x. Run (Bool × Conversion)) [
    | none ↦ done (false, c)
    | some aa ↦ check_while aa c >>= body >>= end_while pre_id
  ]

  pub while_Built :
      (inside : Bool) {shape : Outline} (blocks : List BasicBlock) (bb : BasicBlock)
      (ss : List Step) (body : Conversion → Run (ℤ × Conversion)) (pre_id : ℤ)
      → BuildsBody before true shape body
      → (o : Option AbsAddress) (c : Conversion) (links : List BbLink) → TaggedOpt o
      → Plain ss
      → Named c
      → c.pending_links ≡ links
      → Gives
          (Built before Good inside (and_loop shape nothing) (flat (blocks ++ bb ∷ [])) links)
          (while_parts body pre_id o (at c before blocks (extend (extend bb loop_opening) ss)))
  unfolding push_link
  while_Built inside blocks bb ss body pre_id builds none c links t plain named same =
      failed_Built before inside _ links blocks _ c named same
  while_Built inside blocks bb ss body pre_id builds (some aa) c links t plain named same =
      let bb2 = extend (extend bb loop_opening) ss in
      let bb3 = extend bb2 (check_step aa ∷ marked Op.meta_mark_while_check ∷ []) in
      rw (check_while-at before blocks aa c bb2) (
        after_Built before (end_while pre_id) (builds blocks bb3 c named)
          (λ id c1 blocks1 bb1 new named1 same1 pay.
            let g = blocks1 ++ extend bb1 loop_close ∷ [] in
            let c2 =
              push_link pre_id (pos (length g)) (push_link pre_id id (push_link id pre_id c1)) in
            let more =
              record { from = pre_id; to = id }
              ∷ record { from = pre_id; to = pos (length g) }
              ∷ [] in
            rw (end_while-at before blocks1 pre_id id c1 bb1) (
              given (
                built {c = c2} (blocks1 ++ extend bb1 loop_close ∷ []) (extend fresh_block loop_end)
                  (new ++ record { from = id; to = pre_id } ∷ more)
                  (record { in_globals = named1.in_globals; in_locals = named1.in_locals })
                  (three_more _ links new _ _ _ (same1 ∙ ap (λ l. l ++ new) same))
                  (λ w good.
                    let (left, right) = whole-append new _ w in
                    let (ts, e, shaped) = pay left (from_good id pre_id more right) in
                    (
                      _,
                      loop-flat blocks bb ss blocks1 bb1 aa ts e,
                      loop-Shaped inside ss aa ts plain t shaped,
                    ))))))
