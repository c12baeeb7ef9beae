-- ===== src/Codegen/Layout/Landing.antt =====
-- Where the jumps of a chunk lead, and that lowered steps have none.
use minuet_lang_mirror.Base.{
  ℕ, ℤ, pos, ◌<◌, ◌≡◌, false, Option, none, some, [], ◌∷◌, ◌++◌, Bool-cases, inl, inr,
}
use minuet_lang_mirror.Ir.Steps.{
  Op, Step, tac_unary, tac_binary, oper_nonary, oper_unary, oper_binary, oper_ternary,
}
use minuet_lang_mirror.Runtime.Bytecode.{Chunk, Opcode}
use minuet_lang_mirror.Codegen.Emitter.Metadata.{PseudoArg, pseudo_arg_eq}
use minuet_lang_mirror.Codegen.Emitter.Plain.{binary_opcode, unary_opcode, two_opcode, three_opcode}
use minuet_lang_mirror.Codegen.Layout.{
  lower, lower_one, lower_two, lower_three, lower_unary, lower_nonary, code_of, jumps, jump_op,
}

-- The argument that holds the target of a jump is the index of one of `n` instructions.
abbrev pub Within : ℕ → ℤ → Type 0
Within n target = (t : ℕ) × (target ≡ pos t) × (t < n)

abbrev pub LandsBy : ℕ → Opcode → ℤ → ℤ → Type 0
LandsBy n Opcode.jump arg_0 arg_1 = Within n arg_0
LandsBy n Opcode.jump_if arg_0 arg_1 = Within n arg_1
LandsBy n Opcode.jump_else arg_0 arg_1 = Within n arg_1
LandsBy n op arg_0 arg_1 = Unit

abbrev pub Lands : ℕ → Chunk → Type 0
Lands n [] = Unit
Lands n (i ∷ is) = LandsBy n i.op i.arg_0 i.arg_1 × Lands n is

pub Lands-append : (n : ℕ) (xs ys : Chunk) → Lands n xs → Lands n ys → Lands n (xs ++ ys)
Lands-append n [] ys p q = q
Lands-append n (x ∷ xs) ys (here, p) q = (here, Lands-append n xs ys p q)

abbrev Calm : Option Opcode → Type 0
Calm none = Unit
Calm (some Opcode.jump) = ⊥
Calm (some Opcode.jump_if) = ⊥
Calm (some Opcode.jump_else) = ⊥
Calm (some opcode) = Unit

module _ (n : ℕ) where
  Calm-Lands : (oc : Opcode) (a b : ℤ) → Calm (some oc) → LandsBy n oc a b
  Calm-Lands Opcode.jump a b h = absurd h
  Calm-Lands Opcode.jump_if a b h = absurd h
  Calm-Lands Opcode.jump_else a b h = absurd h
  Calm-Lands oc a b h = tt

  lower_one-Lands :
      (oc : Option Opcode) (a : Option PseudoArg) → Calm oc → Lands n (code_of (lower_one oc a))
  lower_one-Lands none a h = tt
  lower_one-Lands (some oc) none h = tt
  lower_one-Lands (some oc) (some a) h = (Calm-Lands oc _ _ h, tt)

  lower_two-Lands :
      (oc : Option Opcode) (a b : Option PseudoArg) → Calm oc → Lands n (code_of (lower_two oc a b))
  lower_two-Lands none a b h = tt
  lower_two-Lands (some oc) none b h = tt
  lower_two-Lands (some oc) (some a) none h = tt
  lower_two-Lands (some oc) (some a) (some b) h = (Calm-Lands oc _ _ h, tt)

  lower_three-Lands :
      (oc : Option Opcode) (a0 a1 a2 : Option PseudoArg)
      → Calm oc
      → Lands n (code_of (lower_three oc a0 a1 a2))
  lower_three-Lands none a0 a1 a2 h = tt
  lower_three-Lands (some oc) none a1 a2 h = tt
  lower_three-Lands (some oc) (some a0) none a2 h = tt
  lower_three-Lands (some oc) (some a0) (some a1) none h = tt
  lower_three-Lands (some oc) (some a0) (some a1) (some a2) h = (Calm-Lands oc _ _ h, tt)

  lower_unary-Lands :
      (op : Op) (a0 a1 : Option PseudoArg) → Lands n (code_of (lower_unary op a0 a1))
  lower_unary-Lands Op.nop (some a0) (some a1) = (tt, tt)
  lower_unary-Lands Op.neg (some a0) (some a1) = elim (Bool-cases (pseudo_arg_eq a0 a1)) [
    | inl e ↦ rw e (tt, tt)
    | inr e ↦ rw e (tt, (tt, tt))
  ]
  lower_unary-Lands op a0 a1 = tt

  lower_nonary-Lands : (op : Op) → Lands n (code_of (lower_nonary op))
  lower_nonary-Lands Op.nop = (tt, tt)
  lower_nonary-Lands op = tt

binary_opcode-Calm : (op : Op) → Calm (binary_opcode op)
binary_opcode-Calm Op.mul = tt
binary_opcode-Calm op = tt

three_opcode-Calm : (op : Op) → Calm (three_opcode op)
three_opcode-Calm Op.seq_obj_push = tt
three_opcode-Calm op = tt

unary_opcode-Calm : (op : Op) → jump_op op ≡ false → Calm (unary_opcode op)
unary_opcode-Calm Op.jump h = absurd (cc)
unary_opcode-Calm op h = tt

two_opcode-Calm : (op : Op) → jump_op op ≡ false → Calm (two_opcode op)
two_opcode-Calm Op.jump_if h = absurd (cc)
two_opcode-Calm Op.jump_else h = absurd (cc)
two_opcode-Calm op h = tt

pub lower-Lands : (n : ℕ) (s : Step) → jumps s ≡ false → Lands n (code_of (lower s))
unfolding lower
lower-Lands n (tac_unary s) h = lower_unary-Lands n s.op _ _
lower-Lands n (tac_binary s) h = lower_three-Lands n _ _ _ _ (binary_opcode-Calm s.op)
lower-Lands n (oper_nonary s) h = lower_nonary-Lands n s.op
lower-Lands n (oper_unary s) h = lower_one-Lands n _ _ (unary_opcode-Calm s.op h)
lower-Lands n (oper_binary s) h = lower_two-Lands n _ _ _ (two_opcode-Calm s.op h)
lower-Lands n (oper_ternary s) h = lower_three-Lands n _ _ _ _ (three_opcode-Calm s.op)
