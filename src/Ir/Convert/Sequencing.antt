-- ===== src/Ir/Convert/Sequencing.antt =====
-- Statements behind expressions, behind statements and in blocks.
use minuet_lang_mirror.Codegen.Layout.Outlines.{Outline, nothing, join}
use minuet_lang_mirror.Base.{
  ℕ, ℤ, pos, ◌≡◌, refl, ◌∙◌, Bool, true, false, Option, List, [], ◌∷◌, ◌++◌, Run, done, ◌>>=◌,
  if◌then◌else◌,
}
use mathlib.Core.List.{append-nil}
use minuet_lang_mirror.Frontend.Lexicals.{Text}
use minuet_lang_mirror.Syntax.Trees.{ExprNode, StmtList}
use minuet_lang_mirror.Ir.Steps.{Step, AbsAddress}
use minuet_lang_mirror.Ir.Graph.{BasicBlock, Cfg, dud_bb_id}
use minuet_lang_mirror.Ir.Convert.State.{Conversion, BbLink, add_block}
use minuet_lang_mirror.Ir.Convert.Exprs.{emit_expr, Located}
use minuet_lang_mirror.Ir.Convert.Parts.{block_result}
use minuet_lang_mirror.Ir.Convert.Stmts.{emit_stmts}
use minuet_lang_mirror.Ir.Convert.Wrote.{Gives, given, Plain, TaggedOpt, Named, at, extend}
use minuet_lang_mirror.Ir.Convert.ExprSteps.{emit_expr-Wrote}
use minuet_lang_mirror.Ir.Convert.Built.{
  flat, flat-append, whole, Shaped, Built, built, after_Built, after_Wrote, go_on_Built,
}
use minuet_lang_mirror.Ir.Convert.PartSteps.{fresh_block, extend-nil, add_block-at}
use minuet_lang_mirror.Ir.Convert.Building.{Good, GoodId, Builds, straight_Built}
use minuet_lang_mirror.Codegen.Layout.{skip, valid}
use mathlib.Core.Path.{subst}

pub fresh-flat : (g : List BasicBlock) → flat (g ++ fresh_block ∷ []) ≡ flat g
fresh-flat g = flat-append g (fresh_block ∷ []) ∙ append-nil (flat g)

-- The result of a body with an id that is no block's is that of a statement that has failed.
succeeded : (ok : Bool) (id : ℤ) → GoodId (if ok then id else dud_bb_id) → Good ok
succeeded true id h = refl
succeeded false id h = absurd (cc)

module _ (before : List Cfg) (stod : Text → Run ℕ)
    (stod_ok : (t : Text) → Gives (λ d. Unit {0}) (stod t)) (source : Text) where
  -- An expression, and what follows its steps.
  pub then_follows :
      (inside : Bool) {shape : Outline} (x : ExprNode) (blocks : List BasicBlock)
      (bb bb1 : BasicBlock) (c : Conversion) (f : Located → Run (Bool × Conversion))
      → Named c
      → ((o : Option AbsAddress) (c1 : Conversion) (ss : List Step)
          → TaggedOpt o
          → Plain ss
          → Named c1
          → c1.pending_links ≡ c.pending_links
          → Gives
              (Built before Good inside shape (flat (blocks ++ bb ∷ [])) c.pending_links)
              (f (o, at c1 before blocks (extend bb1 ss))))
      → Gives
          (Built before Good inside shape (flat (blocks ++ bb ∷ [])) c.pending_links)
          (emit_expr stod source x (at c before blocks bb1) >>= f)
  then_follows inside x blocks bb bb1 c f named next =
      after_Wrote before f (emit_expr-Wrote before blocks stod source x c bb1 stod_ok named)
        (λ o c1 ss t plain named1 same. next o c1 ss t plain named1 same)

  -- A list of statements goes on where its first one has succeeded.
  pub list_rest :
      (inside : Bool) {shape more_shape : Outline} (ss : StmtList)
      → Builds before inside more_shape (emit_stmts stod source ss)
      → (ok : Bool) (c : Conversion) (blocks : List BasicBlock) (bb : BasicBlock) (base : List Step)
        (links new : List BbLink)
      → Named c
      → c.pending_links ≡ links ++ new
      → (whole new ≡ true
          → Good ok
          → (ss : List Step) × (flat (blocks ++ bb ∷ []) ≡ base ++ ss) × Shaped inside shape ss)
      → Gives
          (Built before Good inside (join shape more_shape) base links)
          (elim ok as (λ x. Run (Bool × Conversion)) [
            | true ↦ emit_stmts stod source ss (at c before blocks bb)
            | false ↦ done (false, at c before blocks bb)
          ])
  list_rest inside ss rest true c blocks bb base links new named same pay =
      go_on_Built before new refl same pay (rest blocks bb c named)
  list_rest inside ss rest false c blocks bb base links new named same pay =
      given (built blocks bb new named same (λ w good. absurd (cc)))

  -- The block of a body.
  pub body_block :
      (inside : Bool) {shape : Outline} (ss : StmtList)
      → Builds before inside shape (emit_stmts stod source ss)
      → Builds before inside shape (λ c. add_block c >>= λ p. emit_stmts stod source ss p.1)
  body_block inside {shape = shape} ss rest blocks bb c named =
      rw (add_block-at before blocks c bb) (
        subst
          (λ z.
            Gives (Built before Good inside shape z c.pending_links)
              (emit_stmts stod source ss (at c before (blocks ++ bb ∷ []) fresh_block)))
          (fresh-flat (blocks ++ bb ∷ [])) (rest (blocks ++ bb ∷ []) fresh_block c named))

  pub body_result :
      (inside : Bool) {shape : Outline} (base : List Step) (links : List BbLink) (id : ℕ)
      (m : Run (Bool × Conversion))
      → Gives (Built before Good inside shape base links) m
      → Gives (Built before GoodId inside shape base links) (m >>= block_result (pos id))
  body_result inside base links id m h =
      after_Built before (block_result (pos id)) h (λ ok c blocks bb new named same pay.
        given (built blocks bb new named same (λ w good. pay w (succeeded ok (pos id) good))))

  pub nothing_Built : (inside : Bool) → Builds before inside nothing (λ c. done (true, c))
  unfolding valid
  nothing_Built inside blocks bb c named =
      subst
        (λ b.
          Gives (Built before Good inside nothing (flat (blocks ++ bb ∷ [])) c.pending_links)
            (done (true, at c before blocks b)))
        (extend-nil bb)
        (straight_Built before inside true c.pending_links blocks bb [] c (skip, refl, refl, refl)
          named refl)
