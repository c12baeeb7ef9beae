-- ===== src/Ir/Convert/SimpleSteps.antt =====
-- Statements that are an expression with a step or a name behind it.
use minuet_lang_mirror.Codegen.Layout.Outlines.{nothing}
use minuet_lang_mirror.Base.{
  ℕ, ◌≡◌, refl, ◌∙◌, Bool, true, false, Option, none, some, List, [], ◌∷◌, ◌++◌, Run, done,
  Bool-cases, inl, inr, Option-cases,
}
use minuet_lang_mirror.Frontend.Lexicals.{Token, token_length, span_length, Text}
use minuet_lang_mirror.Ir.Steps.{Op, Step, AbsAddress, oper_unary, address_eq}
use minuet_lang_mirror.Ir.Graph.{BasicBlock, Cfg}
use minuet_lang_mirror.Ir.Convert.State.{
  Conversion, BbLink, gen_temp_aa, record_name_aa, local_slot, find, report_error,
}
use minuet_lang_mirror.Ir.Convert.Exprs.{move_step}
use minuet_lang_mirror.Ir.Convert.Parts.{finish_def, finish_record, finish_return}
use minuet_lang_mirror.Ir.Convert.Stmts.{has_address}
use minuet_lang_mirror.Ir.Convert.Wrote.{
  bind_Gives, substr-Gives, Gives, Plain, Plain-append, Tagged, TaggedOpt, Named, at, extend,
  add_step-at,
}
use minuet_lang_mirror.Ir.Convert.Lowering.{move_lowers, unary_lowers}
use minuet_lang_mirror.Ir.Convert.Built.{flat, Plain-Shaped, Built}
use minuet_lang_mirror.Ir.Convert.PartSteps.{extend-extend}
use minuet_lang_mirror.Ir.Convert.Building.{Good, failed_Built, straight_Built}

module _ (before : List Cfg) (inside : Bool) (blocks : List BasicBlock) (bb : BasicBlock)
    (ss : List Step) (plain : Plain ss) (links : List BbLink) where
  -- The result of a part behind the expression.
  abbrev pub Follows : Run (Bool × Conversion) → Type 0
  Follows m = Gives (Built before Good inside nothing (flat (blocks ++ bb ∷ [])) links) m

  pub has_address_Built :
      (o : Option AbsAddress) (c : Conversion)
      → Named c
      → c.pending_links ≡ links
      → Follows (has_address (o, at c before blocks (extend bb ss)))
  has_address_Built none c named same =
      failed_Built before inside _ links blocks (extend bb ss) c named same
  has_address_Built (some aa) c named same =
      straight_Built before inside true links blocks bb ss c (Plain-Shaped inside ss plain) named
        same

  more_Built :
      (ok : Bool) (s : Step) (c : Conversion)
      → Plain (s ∷ [])
      → Named c
      → c.pending_links ≡ links
      → Follows (done (ok, at c before blocks (extend (extend bb ss) (s ∷ []))))
  more_Built ok s c p named same = rw (extend-extend bb ss (s ∷ [])) (
      straight_Built before inside ok links blocks bb (ss ++ s ∷ []) c
        (Plain-Shaped inside (ss ++ s ∷ []) (Plain-append ss (s ∷ []) plain p)) named same)

  pub finish_return_Built :
      (o : Option AbsAddress) (c : Conversion)
      → TaggedOpt o
      → Named c
      → c.pending_links ≡ links
      → Follows (finish_return (o, at c before blocks (extend bb ss)))
  unfolding finish_return
  finish_return_Built none c t named same =
      failed_Built before inside _ links blocks (extend bb ss) c named same
  finish_return_Built (some aa) c t named same =
      let s = oper_unary (record { arg_0 = aa; op = Op.ret }) in
      rw (add_step-at before blocks s c (extend bb ss))
        (more_Built true s c ((unary_lowers aa Op.ret t refl, refl), tt) named same)

  -- With the name of the new local, or with one more error where the name is taken.
  with_name_Built :
      (source : Text) (token : Token) (init_end : ℕ) (name : Text) (aa : AbsAddress)
      (c : Conversion) (bb1 : BasicBlock)
      → Tagged aa
      → ((ok : Bool) (c1 : Conversion)
          → Named c1
          → c1.pending_links ≡ c.pending_links
          → Follows (done (ok, at c1 before blocks bb1)))
      → Named c
      → Follows (
          finish_record source token init_end
            (record_name_aa local_slot name aa (at c before blocks bb1)))
  unfolding record_name_aa report_error finish_record
  with_name_Built source token init_end name aa c bb1 t next named =
      elim (Option-cases (find c.locals name)) [
        | inl e ↦ rw e (
            next true (record c { locals = (name, aa) ∷ c.locals })
              (record { in_globals = named.in_globals; in_locals = (t, named.in_locals) }) refl)
        | inr (a, e) ↦ rw e (
            bind_Gives (substr-Gives source token.start (token_length token)) λ def_name h.
              bind_Gives (substr-Gives source token.start (span_length token.start init_end))
                λ text h'.
                  next false (report_error c)
                    (record { in_globals = named.in_globals; in_locals = named.in_locals }) refl)
      ]

  pub finish_def_Built :
      (source : Text) (token : Token) (init_end : ℕ) (name : Text) (o : Option AbsAddress)
      (c : Conversion)
      → TaggedOpt o
      → Named c
      → c.pending_links ≡ links
      → Follows (finish_def source token init_end name (o, at c before blocks (extend bb ss)))
  unfolding finish_def gen_temp_aa
  finish_def_Built source token init_end name none c t named same =
      failed_Built before inside _ links blocks (extend bb ss) (gen_temp_aa c).1
        (record { in_globals = named.in_globals; in_locals = named.in_locals }) same
  finish_def_Built source token init_end name (some init) c t named same =
      let (dest, c1) = gen_temp_aa c in
      let named1 : Named c1 = record {
        in_globals = named.in_globals;
        in_locals = named.in_locals;
      } in
      elim (Bool-cases (address_eq dest init)) [
        | inl e ↦ rw e (
            with_name_Built source token init_end name dest c1 (extend bb ss) refl
              (λ ok c2 n2 same2.
                straight_Built before inside ok links blocks bb ss c2 (Plain-Shaped inside ss plain)
                  n2 (same2 ∙ same))
              named1)
        | inr e ↦ rw e (
            rw (add_step-at before blocks (move_step dest init) c1 (extend bb ss)) (
              with_name_Built source token init_end name dest c1
                (extend (extend bb ss) (move_step dest init ∷ [])) refl
                (λ ok c2 n2 same2.
                  more_Built ok (move_step dest init) c2 ((move_lowers dest init refl t, refl), tt)
                    n2 (same2 ∙ same))
                named1))
      ]
