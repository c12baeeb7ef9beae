-- ===== src/Codegen/Layout/Steps.antt =====
-- Straight steps append their instructions to the newest chunk and change nothing else.
use minuet_lang_mirror.Base.{
  ℤ, ◌≡◌, refl, ap, Bool, true, Option, none, some, List, [], ◌∷◌, ◌++◌, Run, done, Bool-cases, inl,
  inr,
}
use mathlib.Core.List.{append_assoc}
use minuet_lang_mirror.Ir.Steps.{
  Op, Step, tac_unary, tac_binary, oper_nonary, oper_unary, oper_binary, oper_ternary,
}
use minuet_lang_mirror.Runtime.Bytecode.{Instruction, Chunk, Opcode}
use minuet_lang_mirror.Codegen.Emitter.Metadata.{PseudoArg, pseudo_arg_eq}
use minuet_lang_mirror.Codegen.Emitter.State.{
  ActiveIfElse, ActiveLoop, Emitter, back, set_back, append,
}
use minuet_lang_mirror.Codegen.Emitter.Plain.{
  emit_unary_op, unary_args, emit_tac_unary, emit_tac_binary, emit_oper_unary, emit_oper_binary,
  emit_oper_ternary, emit_one, emit_two, emit_three,
}
use minuet_lang_mirror.Codegen.Emitter.Patching.{emit_oper_nonary, emit_nonary_op}
use minuet_lang_mirror.Codegen.Emitter.Blocks.{emit_step, emit_steps}
use minuet_lang_mirror.Codegen.Layout.{
  lower, lower_one, lower_two, lower_three, lower_unary, lower_nonary,
}

module _ {ℓ} {A : Type ℓ} where
  pub back-append : (xs : List A) (x : A) → back (xs ++ x ∷ []) ≡ done x
  back-append [] x = refl
  back-append (y ∷ []) x = refl
  back-append (y ∷ z ∷ ys) x = back-append (z ∷ ys) x

  pub set_back-append : (xs : List A) (x v : A) → set_back (xs ++ x ∷ []) v ≡ xs ++ v ∷ []
  set_back-append [] x v = refl
  set_back-append (y ∷ []) x v = refl
  set_back-append (y ∷ z ∷ ys) x v = ap (◌∷◌ y) (set_back-append (z ∷ ys) x v)

-- An emitter whose newest chunk is `c`.
abbrev pub holding : List Chunk → List ActiveIfElse → List ActiveLoop → ℤ → Chunk → Emitter
holding before ifs loops next c = record {
  result_chunks = before ++ c ∷ [];
  active_ifs = ifs;
  active_loops = loops;
  next_fun_id = next;
}

module _ (before : List Chunk) (ifs : List ActiveIfElse) (loops : List ActiveLoop) (next : ℤ) where
  pub append-holding :
      (i : Instruction) (c : Chunk)
      → append i (holding before ifs loops next c)
        ≡ done (holding before ifs loops next (c ++ i ∷ []))
  unfolding append
  append-holding i c = rw (back-append before c, set_back-append before c (c ++ i ∷ [])) refl

  -- Where the specification has code for a step, the emitter appends it.
  abbrev pub Appends : Chunk → Option (List Instruction) → Run (Bool × Emitter) → Type 0
  Appends c none m = Unit
  Appends c (some code) m = m ≡ done (true, holding before ifs loops next (c ++ code))

  emit_one-lower :
      (c : Chunk) (oc : Option Opcode) (a : Option PseudoArg)
      → Appends c (lower_one oc a) (emit_one oc a (holding before ifs loops next c))
  emit_one-lower c none a = tt
  emit_one-lower c (some oc) none = tt
  emit_one-lower c (some oc) (some a) = rw append-holding refl

  emit_two-lower :
      (c : Chunk) (oc : Option Opcode) (a b : Option PseudoArg)
      → Appends c (lower_two oc a b) (emit_two oc a b (holding before ifs loops next c))
  emit_two-lower c none a b = tt
  emit_two-lower c (some oc) none b = tt
  emit_two-lower c (some oc) (some a) none = tt
  emit_two-lower c (some oc) (some a) (some b) = rw append-holding refl

  emit_three-lower :
      (c : Chunk) (oc : Option Opcode) (a0 a1 a2 : Option PseudoArg)
      → Appends c
          (lower_three oc a0 a1 a2)
          (emit_three oc a0 a1 a2 (holding before ifs loops next c))
  emit_three-lower c none a0 a1 a2 = tt
  emit_three-lower c (some oc) none a1 a2 = tt
  emit_three-lower c (some oc) (some a0) none a2 = tt
  emit_three-lower c (some oc) (some a0) (some a1) none = tt
  emit_three-lower c (some oc) (some a0) (some a1) (some a2) = rw append-holding refl

  emit_unary_op-lower :
      (c : Chunk) (op : Op) (a0 a1 : Option PseudoArg)
      → Appends c (lower_unary op a0 a1) (unary_args op a0 a1 (holding before ifs loops next c))
  unfolding emit_unary_op unary_args
  emit_unary_op-lower c Op.nop (some a0) (some a1) = rw append-holding refl
  emit_unary_op-lower c Op.neg (some a0) (some a1) = elim (Bool-cases (pseudo_arg_eq a0 a1)) [
    | inl e ↦ rw (e, append-holding) refl
    | inr e ↦ rw (e, append-holding, append-holding, append_assoc) refl
  ]
  emit_unary_op-lower c op a0 a1 = tt

  emit_nonary-lower :
      (c : Chunk) (op : Op)
      → Appends c (lower_nonary op) (emit_nonary_op op (holding before ifs loops next c))
  unfolding emit_nonary_op
  emit_nonary-lower c Op.nop = rw append-holding refl
  emit_nonary-lower c op = tt

  pub emit_step-lower :
      (c : Chunk) (s : Step) → Appends c (lower s) (emit_step s (holding before ifs loops next c))
  unfolding lower emit_step emit_tac_unary emit_tac_binary emit_oper_nonary emit_oper_unary
      emit_oper_binary emit_oper_ternary
  emit_step-lower c (tac_unary s) = emit_unary_op-lower c _ _ _
  emit_step-lower c (tac_binary s) = emit_three-lower c _ _ _ _
  emit_step-lower c (oper_nonary s) = emit_nonary-lower c _
  emit_step-lower c (oper_unary s) = emit_one-lower c _ _
  emit_step-lower c (oper_binary s) = emit_two-lower c _ _ _
  emit_step-lower c (oper_ternary s) = emit_three-lower c _ _ _ _

-- The steps are emitted one by one, and the first emitter becomes the second.
pub data Emits : List Step → Emitter → Emitter → Type 0 where
  finished : {e : Emitter} → Emits [] e e
  next :
      {s : Step} {ss : List Step} {e e' e'' : Emitter}
      → emit_step s e ≡ done (true, e')
      → Emits ss e' e''
      → Emits (s ∷ ss) e e''

pub append-Emits :
    {xs ys : List Step} {e e' e'' : Emitter}
    → Emits xs e e'
    → Emits ys e' e''
    → Emits (xs ++ ys) e e''
append-Emits finished rest = rest
append-Emits (next h first) rest = next h (append-Emits first rest)

pub emit_steps-Emits :
    {ss : List Step} {e e' : Emitter} → Emits ss e e' → emit_steps ss e ≡ done (true, e')
unfolding emit_steps
emit_steps-Emits finished = refl
emit_steps-Emits (next h rest) = rw h (emit_steps-Emits rest)
