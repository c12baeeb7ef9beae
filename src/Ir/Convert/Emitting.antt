-- ===== src/Ir/Convert/Emitting.antt =====
-- Expressions write straight steps into the newest block and nothing else.
use minuet_lang_mirror.Base.{
  ℕ, ℤ, ◌≡◌, refl, Bool, true, false, Option, none, some, List, done, ◌>>=◌,
}
use minuet_lang_mirror.Frontend.Lexicals.{Text, span_length}
use minuet_lang_mirror.Semantics.Enums.{Operator, operator_to_ir_op}
use minuet_lang_mirror.Ir.Steps.{
  Op, AbsAddress, AbsAddrTag, oper_binary, oper_unary, oper_ternary, tac_unary, tac_binary,
}
use minuet_lang_mirror.Ir.Graph.{BasicBlock, Cfg}
use minuet_lang_mirror.Ir.Convert.State.{Conversion, report_error, gen_temp_aa, add_step}
use minuet_lang_mirror.Ir.Convert.Exprs.{
  refuse, finish_unary, finish_binary, arithmetic, finish_call, finish_assign, finish_sequence,
  freeze_if, immediate_aa, move_step, calling_op,
}
use minuet_lang_mirror.Ir.Convert.Wrote.{
  bind_Gives, substr-Gives, Gives, Tagged, TaggedOpt, Named, at, Wrote, step_Wrote, unchanged,
}
use minuet_lang_mirror.Ir.Convert.Lowering.{
  move_lowers, negation_lowers, binary_lowers, unary_lowers, two_lowers, three_lowers,
}
use minuet_lang_mirror.Codegen.Layout.{is_some, jump_op}
use minuet_lang_mirror.Codegen.Emitter.Plain.{binary_opcode, two_opcode}
use minuet_lang_mirror.Ir.Convert.LiteralSteps.{Writes}

calling_opcode : (tag : AbsAddrTag) → is_some (two_opcode (calling_op tag)) ≡ true
calling_opcode AbsAddrTag.immediate = refl
calling_opcode tag = refl

calling_flat : (tag : AbsAddrTag) → jump_op (calling_op tag) ≡ false
calling_flat AbsAddrTag.immediate = refl
calling_flat tag = refl

module _ (before : List Cfg) (blocks : List BasicBlock) where
  refuse-Writes : (source : Text) (b e : ℕ) → Writes before blocks TaggedOpt (refuse source b e)
  unfolding refuse report_error
  refuse-Writes source b e c bb named =
      bind_Gives (substr-Gives source b (span_length b e)) (λ text h.
        unchanged before blocks none (report_error c) bb tt
          (record { in_globals = named.in_globals; in_locals = named.in_locals }))

  pub finish_unary-Writes :
      (source : Text) (b e : ℕ) (op : Operator) (o : Option AbsAddress)
      → TaggedOpt o
      → Writes before blocks TaggedOpt (λ c. finish_unary source b e op (o, c))
  unfolding finish_unary
  finish_unary-Writes source b e op none t c bb named = unchanged before blocks none c bb tt named
  finish_unary-Writes source b e Operator.negate (some aa) t c bb named =
      step_Wrote before blocks (tac_unary (record { dest = aa; arg_0 = aa; op = Op.neg })) c bb _
        (negation_lowers aa t) refl (λ bb'. unchanged before blocks (some aa) c bb' t named)
  finish_unary-Writes source b e op (some aa) t c bb named = refuse-Writes source b e c bb named

  three_Writes :
      (op : Op) (lhs rhs : AbsAddress) (c : Conversion) (bb : BasicBlock)
      → is_some (binary_opcode op) ≡ true
      → Tagged lhs
      → Tagged rhs
      → Named c
      → let (aa, c1) = gen_temp_aa c in
        Gives (Wrote before blocks TaggedOpt c.pending_links bb) (
          add_step
            (tac_binary (record { dest = aa; arg_0 = lhs; arg_1 = rhs; op = op }))
            (at c1 before blocks bb)
          >>= λ c2. done (some aa, c2))
  unfolding gen_temp_aa
  three_Writes op lhs rhs c bb h tl tr named =
      let (aa, c1) = gen_temp_aa c in
      step_Wrote before blocks
        (tac_binary (record { dest = aa; arg_0 = lhs; arg_1 = rhs; op = op })) c1 bb _
        (binary_lowers aa lhs rhs op refl tl tr h) refl
        (λ bb'.
          unchanged before blocks (some aa) c1 bb' refl
            (record { in_globals = named.in_globals; in_locals = named.in_locals }))

  pub finish_binary-Writes :
      (source : Text) (b e : ℕ) (op : Operator) (o o' : Option AbsAddress)
      → TaggedOpt o
      → TaggedOpt o'
      → Writes before blocks TaggedOpt (finish_binary source b e op o o')
  unfolding finish_binary arithmetic gen_temp_aa operator_to_ir_op
  finish_binary-Writes source b e op none o' t t' c bb named =
      unchanged before blocks none c bb tt named
  finish_binary-Writes source b e op (some lhs) none t t' c bb named =
      unchanged before blocks none c bb tt named
  finish_binary-Writes source b e Operator.negate (some lhs) (some rhs) t t' c bb named =
      refuse-Writes source b e c bb named
  finish_binary-Writes source b e Operator.assign (some lhs) (some rhs) t t' c bb named =
      refuse-Writes source b e c bb named
  finish_binary-Writes source b e Operator.access (some lhs) (some rhs) t t' c bb named =
      let (aa, c1) = gen_temp_aa c in
      step_Wrote before blocks
        (oper_ternary (record { arg_0 = aa; arg_1 = lhs; arg_2 = rhs; op = Op.seq_obj_get })) c1 bb
        _ (three_lowers aa lhs rhs Op.seq_obj_get refl t t' refl) refl
        (λ bb'.
          unchanged before blocks (some aa) c1 bb' refl
            (record { in_globals = named.in_globals; in_locals = named.in_locals }))
  finish_binary-Writes source b e Operator.mul (some l) (some r) t t' c bb n =
      three_Writes Op.mul l r c bb refl t t' n
  finish_binary-Writes source b e Operator.div (some l) (some r) t t' c bb n =
      three_Writes Op.div l r c bb refl t t' n
  finish_binary-Writes source b e Operator.modulo (some l) (some r) t t' c bb n =
      three_Writes Op.modulo l r c bb refl t t' n
  finish_binary-Writes source b e Operator.add (some l) (some r) t t' c bb n =
      three_Writes Op.add l r c bb refl t t' n
  finish_binary-Writes source b e Operator.sub (some l) (some r) t t' c bb n =
      three_Writes Op.sub l r c bb refl t t' n
  finish_binary-Writes source b e Operator.equality (some l) (some r) t t' c bb n =
      three_Writes Op.equ l r c bb refl t t' n
  finish_binary-Writes source b e Operator.inequality (some l) (some r) t t' c bb n =
      three_Writes Op.neq l r c bb refl t t' n
  finish_binary-Writes source b e Operator.lesser (some l) (some r) t t' c bb n =
      three_Writes Op.lt l r c bb refl t t' n
  finish_binary-Writes source b e Operator.greater (some l) (some r) t t' c bb n =
      three_Writes Op.gt l r c bb refl t t' n
  finish_binary-Writes source b e Operator.at_most (some l) (some r) t t' c bb n =
      three_Writes Op.lte l r c bb refl t t' n
  finish_binary-Writes source b e Operator.at_least (some l) (some r) t t' c bb n =
      three_Writes Op.gte l r c bb refl t t' n

  pub finish_assign-Writes :
      (o o' : Option AbsAddress)
      → TaggedOpt o
      → TaggedOpt o'
      → Writes before blocks TaggedOpt (finish_assign o o')
  unfolding finish_assign
  finish_assign-Writes (some lhs) (some rhs) t t' c bb named =
      step_Wrote before blocks (move_step lhs rhs) c bb _ (move_lowers lhs rhs t t') refl
        (λ bb'. unchanged before blocks (some lhs) c bb' t named)
  finish_assign-Writes none o' t t' c bb named = unchanged before blocks none c bb tt named
  finish_assign-Writes (some lhs) none t t' c bb named = unchanged before blocks none c bb tt named

  pub finish_call-Writes :
      (n : ℤ) (callee : AbsAddress) (b : Bool)
      → Writes before blocks TaggedOpt (λ c. finish_call n callee (b, c))
  unfolding finish_call
  finish_call-Writes n callee false c bb named = unchanged before blocks none c bb tt named
  finish_call-Writes n callee true c bb named =
      step_Wrote before blocks
        (oper_binary (record {
          arg_0 = immediate_aa callee.id;
          arg_1 = immediate_aa n;
          op = calling_op callee.tag;
        }))
        c bb _
        (two_lowers (immediate_aa callee.id) (immediate_aa n) (calling_op callee.tag) refl refl
          (calling_opcode callee.tag))
        (calling_flat callee.tag) (λ bb'. unchanged before blocks _ c bb' refl named)

  pub finish_sequence-Writes :
      (fixed : Bool) (aa : AbsAddress)
      → Tagged aa
      → (b : Bool) → Writes before blocks TaggedOpt (λ c. finish_sequence fixed aa (b, c))
  unfolding finish_sequence freeze_if
  finish_sequence-Writes fixed aa t false c bb named = unchanged before blocks none c bb tt named
  finish_sequence-Writes true aa t true c bb named =
      step_Wrote before blocks (oper_unary (record { arg_0 = aa; op = Op.frz_seq_obj })) c bb _
        (unary_lowers aa Op.frz_seq_obj t refl) refl
        (λ bb'. unchanged before blocks (some aa) c bb' t named)
  finish_sequence-Writes false aa t true c bb named = unchanged before blocks (some aa) c bb t named
