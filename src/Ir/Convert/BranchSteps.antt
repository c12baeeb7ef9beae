-- ===== src/Ir/Convert/BranchSteps.antt =====
-- The emission of a branch, from the check on.
use minuet_lang_mirror.Codegen.Layout.Outlines.{Outline, nothing, and_branch, and_branch_else}
use minuet_lang_mirror.Base.{
  ℤ, pos, ◌≡◌, ap, ◌∙◌, Bool, false, Option, none, some, List, [], ◌∷◌, ◌++◌, length, Run, done,
  ◌>>=◌,
}
use minuet_lang_mirror.Ir.Steps.{Step, AbsAddress}
use minuet_lang_mirror.Ir.Graph.{BasicBlock, Cfg}
use minuet_lang_mirror.Ir.Convert.State.{Conversion, BbLink, push_link}
use minuet_lang_mirror.Ir.Convert.Wrote.{Gives, given, Plain, TaggedOpt, Named, at, extend}
use minuet_lang_mirror.Ir.Convert.Built.{
  flat, whole, whole-append, whole_link, Built, built, after_Built,
}
use minuet_lang_mirror.Codegen.Layout.Pieces.{both_true}
use minuet_lang_mirror.Ir.Convert.Parts.{check_if, begin_else, end_if, end_else}
use minuet_lang_mirror.Ir.Convert.PartSteps.{
  fresh_block, check_if-at, begin_else-at, end_if-at, end_else-at, branch_end,
}
use minuet_lang_mirror.Ir.Convert.Building.{Good, three_more, to_good, BuildsBody, failed_Built}
use minuet_lang_mirror.Ir.Convert.Branching.{
  opening, checked, alternative, branch-Shaped, branch_else-Shaped, branch-flat, branch_else-flat,
  else_links,
}

module _ (before : List Cfg) where
  -- Between the condition and the bodies of a branch.
  abbrev pub if_parts :
      (Conversion → Run (ℤ × Conversion))
      → (ℤ → ℤ → Conversion → Run (Bool × Conversion))
      → ℤ
      → Option AbsAddress
      → Conversion
      → Run (Bool × Conversion)
  if_parts body other pre_id o c = elim o as (λ x. Run (Bool × Conversion)) [
    | none ↦ done (false, c)
    | some aa ↦ check_if aa c >>= body >>= λ p. other pre_id p.0 (push_link pre_id p.0 p.1)
  ]

  pub if_Built :
      (inside : Bool) {shape : Outline} (blocks : List BasicBlock) (bb : BasicBlock)
      (ss : List Step) (body : Conversion → Run (ℤ × Conversion)) (pre_id : ℤ)
      → BuildsBody before inside shape body
      → (o : Option AbsAddress) (c : Conversion) (links : List BbLink) → TaggedOpt o
      → Plain ss
      → Named c
      → c.pending_links ≡ links
      → Gives
          (Built before Good inside (and_branch shape nothing) (flat (blocks ++ bb ∷ [])) links)
          (if_parts body end_if pre_id o (at c before blocks (extend (extend bb opening) ss)))
  unfolding push_link
  if_Built inside blocks bb ss body pre_id builds none c links t plain named same =
      failed_Built before inside _ links blocks _ c named same
  if_Built inside blocks bb ss body pre_id builds (some aa) c links t plain named same =
      let bb2 = extend (extend bb opening) ss in
      rw (check_if-at before blocks aa c bb2) (
        after_Built before (λ p. end_if pre_id p.0 (push_link pre_id p.0 p.1))
          (builds blocks (extend bb2 (checked aa)) c named)
          (λ id c1 blocks1 bb1 new named1 same1 pay.
            let g = blocks1 ++ bb1 ∷ [] in
            let n = pos (length g) in
            let c2 = push_link pre_id n (push_link id n (push_link pre_id id c1)) in
            let more = record { from = id; to = n } ∷ record { from = pre_id; to = n } ∷ [] in
            rw (end_if-at before blocks1 pre_id id (push_link pre_id id c1) bb1) (
              given (
                built {c = c2} g (extend fresh_block branch_end)
                  (new ++ record { from = pre_id; to = id } ∷ more)
                  (record { in_globals = named1.in_globals; in_locals = named1.in_locals })
                  (three_more _ links new _ _ _ (same1 ∙ ap (λ l. l ++ new) same))
                  (λ w good.
                    let (left, right) = whole-append new _ w in
                    let (ts, e, shaped) = pay left (to_good pre_id id more right) in
                    (
                      _,
                      branch-flat blocks bb ss g aa ts e,
                      branch-Shaped inside ss aa ts plain t shaped,
                    ))))))

  -- The alternative with its own block.
  abbrev pub else_parts :
      (Conversion → Run (ℤ × Conversion)) → ℤ → ℤ → Conversion → Run (Bool × Conversion)
  else_parts other pre_id id c = begin_else c >>= other >>= end_else pre_id

  pub if_else_Built :
      (inside : Bool) {shape other_shape : Outline} (blocks : List BasicBlock) (bb : BasicBlock)
      (ss : List Step) (body other : Conversion → Run (ℤ × Conversion)) (pre_id : ℤ)
      → BuildsBody before inside shape body
      → BuildsBody before inside other_shape other
      → (o : Option AbsAddress) (c : Conversion) (links : List BbLink) → TaggedOpt o
      → Plain ss
      → Named c
      → c.pending_links ≡ links
      → Gives
          (Built before Good inside
            (and_branch_else shape other_shape nothing)
            (flat (blocks ++ bb ∷ []))
            links)
          (if_parts body
            (else_parts other)
            pre_id
            o
            (at c before blocks (extend (extend bb opening) ss)))
  unfolding push_link
  if_else_Built inside blocks bb ss body other pre_id builds others none c links t plain named
        same =
      failed_Built before inside _ links blocks _ c named same
  if_else_Built inside blocks bb ss body other pre_id builds others (some aa) c links t plain named
        same =
      let bb2 = extend (extend bb opening) ss in
      rw (check_if-at before blocks aa c bb2) (
        after_Built before (λ p. else_parts other pre_id p.0 (push_link pre_id p.0 p.1))
          (builds blocks (extend bb2 (checked aa)) c named)
          (λ id c1 blocks1 bb1 new named1 same1 pay.
            let c' = push_link pre_id id c1 in
            rw (begin_else-at before blocks1 c' bb1) (
              after_Built before (end_else pre_id)
                (others blocks1 (extend bb1 alternative) c'
                  (record { in_globals = named1.in_globals; in_locals = named1.in_locals }))
                (λ id2 c2 blocks2 bb3 new2 named2 same2 pay2.
                  let g = blocks2 ++ extend bb3 branch_end ∷ [] in
                  let n = pos (length g) in
                  let c3 = push_link id2 n (push_link pre_id id2 c2) in
                  let more = record { from = id2; to = n } ∷ [] in
                  rw (end_else-at before blocks2 pre_id id2 c2 bb3) (
                    given (
                      built {c = c3} g fresh_block
                        ((new ++ record { from = pre_id; to = id } ∷ new2)
                          ++ record { from = pre_id; to = id2 } ∷ more)
                        (record { in_globals = named2.in_globals; in_locals = named2.in_locals })
                        (else_links _ links new new2 _ _ _ _ (same1 ∙ ap (λ l. l ++ new) same)
                          same2)
                        (λ w good.
                          let link : BbLink = record { from = pre_id; to = id } in
                          let (left, last) = whole-append (new ++ link ∷ new2) _ w in
                          let (first, middle) = whole-append new (link ∷ new2) left in
                          let (ts, e, shaped) = pay first (to_good pre_id id new2 middle) in
                          let (us, e2, shaped2) =
                            pay2 (both_true (whole_link link) (whole new2) middle).1
                              (to_good pre_id id2 more last) in
                          (
                            _,
                            branch_else-flat blocks bb ss blocks1 bb1 blocks2 bb3 aa ts us e e2,
                            branch_else-Shaped inside ss aa ts us plain t shaped shaped2,
                          ))))))))
