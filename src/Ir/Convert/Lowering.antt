-- ===== src/Ir/Convert/Lowering.antt =====
-- Steps whose addresses an instruction can hold have bytecode.
use minuet_lang_mirror.Base.{ℤ, ◌≡◌, refl, true, Option, none, some}
use minuet_lang_mirror.Ir.Steps.{
  Op, AbsAddress, tac_unary, tac_binary, oper_unary, oper_binary, oper_ternary,
}
use minuet_lang_mirror.Runtime.Bytecode.{ArgMode, Opcode}
use minuet_lang_mirror.Codegen.Emitter.Metadata.{PseudoArg, mode_of, with_mode, translate_value_aa}
use minuet_lang_mirror.Codegen.Emitter.Plain.{binary_opcode, unary_opcode, two_opcode, three_opcode}
use minuet_lang_mirror.Codegen.Layout.{
  lower, lower_one, lower_two, lower_three, lower_unary, is_some,
}
use minuet_lang_mirror.Ir.Convert.Wrote.{Tagged}

translated : (a : AbsAddress) → Tagged a → is_some (translate_value_aa a) ≡ true
unfolding translate_value_aa
translated a h = go a.id (mode_of a.tag) h
  where
    go : (v : ℤ) (m : Option ArgMode) → is_some m ≡ true → is_some (with_mode v m) ≡ true
    go v none h = h
    go v (some m) h = refl

some_one :
    (oc : Option Opcode) (a : Option PseudoArg)
    → is_some oc ≡ true
    → is_some a ≡ true
    → is_some (lower_one oc a) ≡ true
some_one (some oc) (some a) h ha = refl
some_one none a h ha = absurd (cc)
some_one (some oc) none h ha = absurd (cc)

some_two :
    (oc : Option Opcode) (a b : Option PseudoArg)
    → is_some oc ≡ true
    → is_some a ≡ true
    → is_some b ≡ true
    → is_some (lower_two oc a b) ≡ true
some_two (some oc) (some a) (some b) h ha hb = refl
some_two none a b h ha hb = absurd (cc)
some_two (some oc) none b h ha hb = absurd (cc)
some_two (some oc) (some a) none h ha hb = absurd (cc)

some_three :
    (oc : Option Opcode) (a b c : Option PseudoArg)
    → is_some oc ≡ true
    → is_some a ≡ true
    → is_some b ≡ true
    → is_some c ≡ true
    → is_some (lower_three oc a b c) ≡ true
some_three (some oc) (some a) (some b) (some c) h ha hb hc = refl
some_three none a b c h ha hb hc = absurd (cc)
some_three (some oc) none b c h ha hb hc = absurd (cc)
some_three (some oc) (some a) none c h ha hb hc = absurd (cc)
some_three (some oc) (some a) (some b) none h ha hb hc = absurd (cc)

pub move_lowers :
    (dest arg : AbsAddress)
    → Tagged dest
    → Tagged arg
    → is_some (lower (tac_unary (record { dest = dest; arg_0 = arg; op = Op.nop }))) ≡ true
unfolding lower
move_lowers dest arg hd ha =
    go (translate_value_aa dest) (translate_value_aa arg) (translated dest hd) (translated arg ha)
  where
    go :
        (a b : Option PseudoArg)
        → is_some a ≡ true
        → is_some b ≡ true
        → is_some (lower_unary Op.nop a b) ≡ true
    go (some a) (some b) ha hb = refl
    go none b ha hb = absurd (cc)
    go (some a) none ha hb = absurd (cc)

pub negation_lowers :
    (aa : AbsAddress)
    → Tagged aa
    → is_some (lower (tac_unary (record { dest = aa; arg_0 = aa; op = Op.neg }))) ≡ true
unfolding lower
negation_lowers aa h = go (translate_value_aa aa) (translated aa h)
  where
    go : (a : Option PseudoArg) → is_some a ≡ true → is_some (lower_unary Op.neg a a) ≡ true
    go (some a) ha = refl
    go none ha = absurd (cc)

pub binary_lowers :
    (dest a b : AbsAddress) (op : Op)
    → Tagged dest
    → Tagged a
    → Tagged b
    → is_some (binary_opcode op) ≡ true
    → is_some (lower (tac_binary (record { dest = dest; arg_0 = a; arg_1 = b; op = op }))) ≡ true
unfolding lower
binary_lowers dest a b op hd ha hb h =
    some_three (binary_opcode op) _ _ _ h (translated dest hd) (translated a ha) (translated b hb)

pub unary_lowers :
    (a : AbsAddress) (op : Op)
    → Tagged a
    → is_some (unary_opcode op) ≡ true
    → is_some (lower (oper_unary (record { arg_0 = a; op = op }))) ≡ true
unfolding lower
unary_lowers a op ha h = some_one (unary_opcode op) _ h (translated a ha)

pub two_lowers :
    (a b : AbsAddress) (op : Op)
    → Tagged a
    → Tagged b
    → is_some (two_opcode op) ≡ true
    → is_some (lower (oper_binary (record { arg_0 = a; arg_1 = b; op = op }))) ≡ true
unfolding lower
two_lowers a b op ha hb h = some_two (two_opcode op) _ _ h (translated a ha) (translated b hb)

pub three_lowers :
    (a b c : AbsAddress) (op : Op)
    → Tagged a
    → Tagged b
    → Tagged c
    → is_some (three_opcode op) ≡ true
    → is_some (lower (oper_ternary (record { arg_0 = a; arg_1 = b; arg_2 = c; op = op }))) ≡ true
unfolding lower
three_lowers a b c op ha hb hc h =
    some_three (three_opcode op) _ _ _ h (translated a ha) (translated b hb) (translated c hc)
