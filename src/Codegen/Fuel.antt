-- ===== src/Codegen/Fuel.antt =====
-- No part of the emitter runs out of fuel by itself.
use minuet_lang_mirror.Base.{
  ℕ, ℤ, pos, negsuc, ◌≢◌, Bool, true, false, Option, none, some, List, [], ◌∷◌, get_elem?, Run,
  done, fault, Fault, bad_index, no_fuel, ◌>>=◌, from_option, read_at, write_at, write_in,
  if◌then◌else◌, eq_ℤ,
}
use minuet_lang_mirror.Ir.Steps.{
  Op, Step, tac_unary, tac_binary, oper_nonary, oper_unary, oper_binary, oper_ternary,
}
use minuet_lang_mirror.Ir.Graph.{BasicBlock}
use minuet_lang_mirror.Runtime.Bytecode.{Instruction, Opcode, Chunk}
use minuet_lang_mirror.Codegen.Emitter.Metadata.{PseudoArg, pseudo_arg_eq}
use minuet_lang_mirror.Codegen.Emitter.State.{
  ActiveIfElse, ActiveLoop, Emitter, back, append, chunk_size, patch_arg_0, patch_arg_1,
  patch_jumps,
}
use minuet_lang_mirror.Codegen.Emitter.Plain.{
  emit_unary_op, unary_args, emit_tac_unary, emit_tac_binary, emit_oper_unary, emit_oper_binary,
  emit_oper_ternary, emit_one, emit_two, emit_three, emitted,
}
use minuet_lang_mirror.Codegen.Emitter.Patching.{
  newest_ip, begin_while, end_while, mark_while_check, mark_break, mark_continue, begin_if_else,
  patch_if, end_if_else, mark_if_else_check, mark_if_else_alt, emit_nonary_op, emit_oper_nonary,
  change_loop, change_if,
}
use minuet_lang_mirror.Codegen.Emitter.Blocks.{emit_step, emit_steps, emit_bb}

pub data Fueled {ℓ} {A : Type ℓ} : Run A → Type ℓ where
  returned : {a : A} → Fueled (done a)
  failed : {e : Fault} → e ≢ no_fuel → Fueled (fault e)

bad_index-ne : bad_index ≢ no_fuel
bad_index-ne e = cc

pub Fueled-ne {ℓ} : {A : Type ℓ} {m : Run A} → Fueled m → m ≢ fault no_fuel
Fueled-ne returned e = cc
Fueled-ne (failed ne) e = ne (cc)

pub bind_Fueled {ℓ κ} :
    {A : Type ℓ} {B : Type κ} {m : Run A} {f : A → Run B}
    → Fueled m
    → ((a : A) → Fueled (f a))
    → Fueled (m >>= f)
bind_Fueled returned next = next _
bind_Fueled (failed ne) next = failed ne

pub if_Fueled {ℓ} :
    {A : Type ℓ} (b : Bool) {m n : Run A} → Fueled m → Fueled n → Fueled (if b then m else n)
if_Fueled true p q = p
if_Fueled false p q = q

module _ {ℓ} {A : Type ℓ} where
  back-Fueled : (xs : List A) → Fueled (back xs)
  back-Fueled [] = failed bad_index-ne
  back-Fueled (x ∷ []) = returned
  back-Fueled (x ∷ y ∷ ys) = back-Fueled (y ∷ ys)

  option_Fueled : (o : Option A) → Fueled (from_option bad_index o)
  option_Fueled none = failed bad_index-ne
  option_Fueled (some a) = returned

  read_at-Fueled : (xs : List A) (i : ℤ) → Fueled (read_at xs i)
  read_at-Fueled xs (pos i) = option_Fueled (get_elem? xs i)
  read_at-Fueled xs (negsuc i) = failed bad_index-ne

  write_in-Fueled : (xs : List A) (i : ℕ) (v : A) (o : Option A) → Fueled (write_in xs i v o)
  write_in-Fueled xs i v none = failed bad_index-ne
  write_in-Fueled xs i v (some a) = returned

  write_at-Fueled : (xs : List A) (i : ℤ) (v : A) → Fueled (write_at xs i v)
  write_at-Fueled xs (pos i) v = write_in-Fueled xs i v (get_elem? xs i)
  write_at-Fueled xs (negsuc i) v = failed bad_index-ne

append-Fueled : (i : Instruction) (e : Emitter) → Fueled (append i e)
unfolding append
append-Fueled i e = bind_Fueled (back-Fueled e.result_chunks) (λ c. returned)

emitted-Fueled : (i : Instruction) (e : Emitter) → Fueled (emitted i e)
emitted-Fueled i e = bind_Fueled (append-Fueled i e) (λ e'. returned)

chunk_size-Fueled : (e : Emitter) → Fueled (chunk_size e)
unfolding chunk_size
chunk_size-Fueled e = bind_Fueled (back-Fueled e.result_chunks) (λ c. returned)

newest_ip-Fueled : (e : Emitter) → Fueled (newest_ip e)
unfolding newest_ip
newest_ip-Fueled e = bind_Fueled (chunk_size-Fueled e) (λ n. returned)

patch_arg_0-Fueled : (v : ℤ) (c : Chunk) (ip : ℤ) → Fueled (patch_arg_0 v c ip)
unfolding patch_arg_0
patch_arg_0-Fueled v c ip = bind_Fueled (read_at-Fueled c ip) (λ i. write_at-Fueled c ip _)

patch_arg_1-Fueled : (v : ℤ) (c : Chunk) (ip : ℤ) → Fueled (patch_arg_1 v c ip)
unfolding patch_arg_1
patch_arg_1-Fueled v c ip = bind_Fueled (read_at-Fueled c ip) (λ i. write_at-Fueled c ip _)

patch_jumps-Fueled : (v : ℤ) (ips : List ℤ) (c : Chunk) → Fueled (patch_jumps v ips c)
unfolding patch_jumps
patch_jumps-Fueled v [] c = returned
patch_jumps-Fueled v (ip ∷ ips) c =
    bind_Fueled (patch_arg_0-Fueled v c ip) (λ c'. patch_jumps-Fueled v ips c')

patch_if-Fueled : (f : ActiveIfElse) (end : ℤ) (c : Chunk) → Fueled (patch_if f end c)
unfolding patch_if
patch_if-Fueled f end c =
    if_Fueled (eq_ℤ f.alt_ip (negsuc 0)) (patch_arg_1-Fueled end c f.check_ip)
      (bind_Fueled (patch_arg_1-Fueled _ c f.check_ip) (λ c'. patch_arg_0-Fueled end c' f.alt_ip))

change_loop-Fueled : (g : ActiveLoop → ActiveLoop) (e : Emitter) → Fueled (change_loop g e)
change_loop-Fueled g e = bind_Fueled (back-Fueled e.active_loops) (λ l. returned)

change_if-Fueled : (g : ActiveIfElse → ActiveIfElse) (e : Emitter) → Fueled (change_if g e)
change_if-Fueled g e = bind_Fueled (back-Fueled e.active_ifs) (λ f. returned)

end_while-Fueled : (e : Emitter) → Fueled (end_while e)
unfolding end_while
end_while-Fueled e = bind_Fueled (newest_ip-Fueled e) λ end.
    bind_Fueled (back-Fueled e.active_loops) λ l. bind_Fueled (back-Fueled e.result_chunks) λ c.
      bind_Fueled (patch_arg_1-Fueled end c l.check_ip) λ c1.
        bind_Fueled (patch_jumps-Fueled end l.brk_ips c1)
          λ c2. bind_Fueled (patch_jumps-Fueled l.start_ip l.cont_ips c2) (λ c3. returned)

end_if_else-Fueled : (e : Emitter) → Fueled (end_if_else e)
unfolding end_if_else
end_if_else-Fueled e = bind_Fueled (newest_ip-Fueled e) λ end.
    bind_Fueled (back-Fueled e.active_ifs) λ f.
      bind_Fueled (back-Fueled e.result_chunks)
        λ c. bind_Fueled (patch_if-Fueled f end c) (λ c1. returned)

marking_Fueled :
    {m : Run Emitter} → Fueled m → Fueled {A = Bool × Emitter} (m >>= λ e'. done (true, e'))
marking_Fueled p = bind_Fueled p (λ e'. returned)

mark_Fueled :
    (e : Emitter) {f : ℤ → Run Emitter} → ((ip : ℤ) → Fueled (f ip)) → Fueled (newest_ip e >>= f)
mark_Fueled e p = bind_Fueled (newest_ip-Fueled e) p

emit_nonary-Fueled : (op : Op) (e : Emitter) → Fueled (emit_nonary_op op e)
unfolding emit_nonary_op begin_while mark_while_check mark_break mark_continue begin_if_else
    mark_if_else_check mark_if_else_alt chunk_size
emit_nonary-Fueled Op.nop e = emitted-Fueled _ e
emit_nonary-Fueled Op.meta_begin_while e =
    marking_Fueled (bind_Fueled (chunk_size-Fueled e) (λ n. returned))
emit_nonary-Fueled Op.meta_end_while e = marking_Fueled (end_while-Fueled e)
emit_nonary-Fueled Op.meta_mark_while_check e =
    marking_Fueled (mark_Fueled e (λ ip. change_loop-Fueled _ e))
emit_nonary-Fueled Op.meta_mark_break e =
    marking_Fueled (mark_Fueled e (λ ip. change_loop-Fueled _ e))
emit_nonary-Fueled Op.meta_mark_continue e =
    marking_Fueled (mark_Fueled e (λ ip. change_loop-Fueled _ e))
emit_nonary-Fueled Op.meta_begin_if_else e = returned
emit_nonary-Fueled Op.meta_end_if_else e = marking_Fueled (end_if_else-Fueled e)
emit_nonary-Fueled Op.meta_mark_if_else_check e =
    marking_Fueled (mark_Fueled e (λ ip. change_if-Fueled _ e))
emit_nonary-Fueled Op.meta_mark_if_else_alt e =
    marking_Fueled (mark_Fueled e (λ ip. change_if-Fueled _ e))
emit_nonary-Fueled op e = returned

emit_unary-Fueled : (op : Op) (a b : Option PseudoArg) (e : Emitter) → Fueled (unary_args op a b e)
unfolding emit_unary_op unary_args
emit_unary-Fueled Op.nop (some a) (some b) e = emitted-Fueled _ e
emit_unary-Fueled Op.neg (some a) (some b) e =
    if_Fueled (pseudo_arg_eq a b) (emitted-Fueled _ e)
      (bind_Fueled (append-Fueled _ e) (λ e'. emitted-Fueled _ e'))
emit_unary-Fueled op none b e = returned
emit_unary-Fueled op (some a) none e = returned
emit_unary-Fueled op (some a) (some b) e = returned

emit_one-Fueled :
    (oc : Option Opcode) (a : Option PseudoArg) (e : Emitter) → Fueled (emit_one oc a e)
emit_one-Fueled (some oc) (some a) e = emitted-Fueled _ e
emit_one-Fueled none a e = returned
emit_one-Fueled (some oc) none e = returned

emit_two-Fueled :
    (oc : Option Opcode) (a b : Option PseudoArg) (e : Emitter) → Fueled (emit_two oc a b e)
emit_two-Fueled (some oc) (some a) (some b) e = emitted-Fueled _ e
emit_two-Fueled none a b e = returned
emit_two-Fueled (some oc) none b e = returned
emit_two-Fueled (some oc) (some a) none e = returned

emit_three-Fueled :
    (oc : Option Opcode) (a b c : Option PseudoArg) (e : Emitter) → Fueled (emit_three oc a b c e)
emit_three-Fueled (some oc) (some a) (some b) (some c) e = emitted-Fueled _ e
emit_three-Fueled none a b c e = returned
emit_three-Fueled (some oc) none b c e = returned
emit_three-Fueled (some oc) (some a) none c e = returned
emit_three-Fueled (some oc) (some a) (some b) none e = returned

emit_step-Fueled : (s : Step) (e : Emitter) → Fueled (emit_step s e)
unfolding emit_step emit_tac_unary emit_tac_binary emit_oper_nonary emit_oper_unary emit_oper_binary
    emit_oper_ternary
emit_step-Fueled (tac_unary s) e = emit_unary-Fueled s.op _ _ e
emit_step-Fueled (tac_binary s) e = emit_three-Fueled _ _ _ _ e
emit_step-Fueled (oper_nonary s) e = emit_nonary-Fueled s.op e
emit_step-Fueled (oper_unary s) e = emit_one-Fueled _ _ e
emit_step-Fueled (oper_binary s) e = emit_two-Fueled _ _ _ e
emit_step-Fueled (oper_ternary s) e = emit_three-Fueled _ _ _ _ e

emit_steps-Fueled : (ss : List Step) (e : Emitter) → Fueled (emit_steps ss e)
unfolding emit_steps
emit_steps-Fueled [] e = returned
emit_steps-Fueled (s ∷ ss) e =
    bind_Fueled (emit_step-Fueled s e) λ p. if_Fueled p.0 (emit_steps-Fueled ss p.1) returned

pub emit_bb-Fueled : (bb : BasicBlock) (e : Emitter) → Fueled (emit_bb bb e)
unfolding emit_bb
emit_bb-Fueled bb e = emit_steps-Fueled bb.steps e
