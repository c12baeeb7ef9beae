-- ===== src/Ir/Convert/Branching.antt =====
-- The steps and the links that the emission of a branch adds.
use minuet_lang_mirror.Codegen.Layout.Outlines.{Outline, nothing, and_branch, and_branch_else}
use minuet_lang_mirror.Base.{◌≡◌, refl, ap, ◌∙◌, Bool, false, List, [], ◌∷◌, ◌++◌}
use mathlib.Core.List.{append_assoc, append-nil}
use minuet_lang_mirror.Ir.Steps.{Op, Step, AbsAddress}
use minuet_lang_mirror.Ir.Graph.{BasicBlock}
use minuet_lang_mirror.Ir.Convert.State.{BbLink}
use minuet_lang_mirror.Ir.Convert.Wrote.{Plain, Tagged, extend}
use minuet_lang_mirror.Ir.Convert.Built.{flat, flat-append, flat-extend, Shaped, Plain-Shaped}
use minuet_lang_mirror.Ir.Convert.PartSteps.{fresh_block, branch_end}
use minuet_lang_mirror.Codegen.Layout.{branch, branch_else, valid, marked, check_step, jump_step}
use minuet_lang_mirror.Ir.Convert.Building.{flat-fresh}

-- The steps before the body, and those before the alternative.
abbrev pub opening : List Step
opening = marked Op.meta_begin_if_else ∷ []

abbrev pub checked : AbsAddress → List Step
checked aa = check_step aa ∷ marked Op.meta_mark_if_else_check ∷ []

abbrev pub alternative : List Step
alternative = jump_step ∷ marked Op.meta_mark_if_else_alt ∷ marked Op.nop ∷ []

pub branch-Shaped :
    (inside : Bool) {shape : Outline} (ss : List Step) (aa : AbsAddress) (ts : List Step)
    → Plain ss
    → Tagged aa
    → Shaped inside shape ts
    → Shaped inside
        (and_branch shape nothing)
        ((opening ++ ss) ++ ((checked aa ++ ts) ++ branch_end))
unfolding valid
branch-Shaped inside ss aa ts plain t (body, e', v', o') =
    let (check, e, v, o) = Plain-Shaped false ss plain in
    (branch check aa body, rw (e, e') refl, rw (v, t, v') refl, rw (o, o') refl)

pub branch_else-Shaped :
    (inside : Bool) {shape other_shape : Outline} (ss : List Step) (aa : AbsAddress)
    (ts us : List Step)
    → Plain ss
    → Tagged aa
    → Shaped inside shape ts
    → Shaped inside other_shape us
    → Shaped inside
        (and_branch_else shape other_shape nothing)
        ((opening ++ ss) ++ ((checked aa ++ ts) ++ ((alternative ++ us) ++ branch_end)))
unfolding valid
branch_else-Shaped inside ss aa ts us plain t (body, e', v', o') (other, e2, v2, o2) =
    let (check, e, v, o) = Plain-Shaped false ss plain in
    (
      branch_else check aa body other,
      rw (e, e', e2) refl,
      rw (v, t, v', v2) refl,
      rw (o, o', o2) refl,
    )

before_end :
    (base a ss b ts d : List Step)
    → ((((base ++ a) ++ ss) ++ b) ++ ts) ++ d ≡ base ++ ((a ++ ss) ++ ((b ++ ts) ++ d))
before_end base a ss b ts d = simp (append_assoc) refl

before_other :
    (base a ss b ts d us e : List Step)
    → ((((((base ++ a) ++ ss) ++ b) ++ ts) ++ d) ++ us) ++ e
      ≡ base ++ ((a ++ ss) ++ ((b ++ ts) ++ ((d ++ us) ++ e)))
before_other base a ss b ts d us e = simp (append_assoc) refl

-- The steps up to the body.
checked-flat :
    (blocks : List BasicBlock) (bb : BasicBlock) (ss : List Step) (aa : AbsAddress)
    → flat (blocks ++ extend (extend (extend bb opening) ss) (checked aa) ∷ [])
      ≡ ((flat (blocks ++ bb ∷ []) ++ opening) ++ ss) ++ checked aa
checked-flat blocks bb ss aa =
    rw
      (
        flat-extend blocks (extend (extend bb opening) ss) (checked aa),
        flat-extend blocks (extend bb opening) ss,
        flat-extend blocks bb opening,
      )
      refl

pub branch-flat :
    (blocks : List BasicBlock) (bb : BasicBlock) (ss : List Step) (g : List BasicBlock)
    (aa : AbsAddress) (ts : List Step)
    → flat g ≡ flat (blocks ++ extend (extend (extend bb opening) ss) (checked aa) ∷ []) ++ ts
    → flat (g ++ extend fresh_block branch_end ∷ [])
      ≡ flat (blocks ++ bb ∷ []) ++ ((opening ++ ss) ++ ((checked aa ++ ts) ++ branch_end))
branch-flat blocks bb ss g aa ts e =
    rw (flat-fresh g branch_end, e, checked-flat blocks bb ss aa)
      (before_end (flat (blocks ++ bb ∷ [])) opening ss (checked aa) ts branch_end)

pub branch_else-flat :
    (blocks : List BasicBlock) (bb : BasicBlock) (ss : List Step) (blocks1 : List BasicBlock)
    (bb1 : BasicBlock) (blocks2 : List BasicBlock) (bb2 : BasicBlock) (aa : AbsAddress)
    (ts us : List Step)
    → flat (blocks1 ++ bb1 ∷ [])
      ≡ flat (blocks ++ extend (extend (extend bb opening) ss) (checked aa) ∷ []) ++ ts
    → flat (blocks2 ++ bb2 ∷ []) ≡ flat (blocks1 ++ extend bb1 alternative ∷ []) ++ us
    → flat ((blocks2 ++ extend bb2 branch_end ∷ []) ++ fresh_block ∷ [])
      ≡ flat (blocks ++ bb ∷ [])
        ++ ((opening ++ ss) ++ ((checked aa ++ ts) ++ ((alternative ++ us) ++ branch_end)))
branch_else-flat blocks bb ss blocks1 bb1 blocks2 bb2 aa ts us e e2 =
    flat-append (blocks2 ++ extend bb2 branch_end ∷ []) (fresh_block ∷ [])
    ∙ append-nil (flat (blocks2 ++ extend bb2 branch_end ∷ []))
    ∙ flat-extend blocks2 bb2 branch_end
    ∙ ap (λ z. z ++ branch_end)
        (e2
          ∙ ap (λ z. z ++ us)
              (flat-extend blocks1 bb1 alternative
                ∙ ap (λ z. z ++ alternative)
                    (e ∙ ap (λ z. z ++ ts) (checked-flat blocks bb ss aa))))
    ∙ before_other (flat (blocks ++ bb ∷ [])) opening ss (checked aa) ts alternative us branch_end

pub else_links :
    (xs ys zs us ws : List BbLink) (l a b : BbLink)
    → xs ≡ ys ++ zs
    → ws ≡ (xs ++ l ∷ []) ++ us
    → (ws ++ a ∷ []) ++ b ∷ [] ≡ ys ++ ((zs ++ l ∷ us) ++ a ∷ b ∷ [])
else_links xs ys zs us ws l a b h h' =
    append_assoc ws (a ∷ []) (b ∷ [])
    ∙ ap (λ q. q ++ a ∷ b ∷ [])
        (h' ∙ append_assoc xs (l ∷ []) us ∙ ap (λ q. q ++ l ∷ us) h ∙ append_assoc ys zs (l ∷ us))
    ∙ append_assoc ys (zs ++ l ∷ us) (a ∷ b ∷ [])
