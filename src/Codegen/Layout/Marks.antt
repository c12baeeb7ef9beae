-- ===== src/Codegen/Layout/Marks.antt =====
-- What each mark does to an emitter whose newest chunk ends with the marked instruction.
use minuet_lang_mirror.Base.{
  ℤ, pos, ◌-ℤ◌, ◌≡◌, refl, ap, true, List, [], ◌∷◌, ◌++◌, length, length-append, drop_last, done,
  arith,
}
use minuet_lang_mirror.Ir.Steps.{Op}
use minuet_lang_mirror.Runtime.Bytecode.{Instruction, Chunk}
use minuet_lang_mirror.Codegen.Emitter.State.{
  ActiveIfElse, ActiveLoop, back, set_back, chunk_size, patch_arg_1, patch_jumps,
}
use minuet_lang_mirror.Codegen.Emitter.Patching.{
  newest_ip, begin_while, end_while, mark_while_check, mark_break, mark_continue, begin_if_else,
  patch_if, end_if_else, mark_if_else_check, mark_if_else_alt, emit_nonary_op, emit_oper_nonary,
}
use minuet_lang_mirror.Codegen.Emitter.Blocks.{emit_step}
use minuet_lang_mirror.Codegen.Layout.{marked}
use minuet_lang_mirror.Codegen.Layout.Steps.{holding, back-append, set_back-append}
use minuet_lang_mirror.Codegen.Layout.Noting.{fresh_loop, fresh_if, note, room}

drop_last-append {ℓ} : {A : Type ℓ} (xs : List A) (x : A) → drop_last (xs ++ x ∷ []) ≡ xs
drop_last-append [] x = refl
drop_last-append (y ∷ []) x = refl
drop_last-append (y ∷ z ∷ ys) x = ap (◌∷◌ y) (drop_last-append (z ∷ ys) x)

module _ (before : List Chunk) (next : ℤ) where
  chunk_size-holding :
      (ifs : List ActiveIfElse) (loops : List ActiveLoop) (c : Chunk)
      → chunk_size (holding before ifs loops next c) ≡ done (pos (length c))
  unfolding chunk_size
  chunk_size-holding ifs loops c = rw (back-append before c) refl

  newest_ip-holding :
      (ifs : List ActiveIfElse) (loops : List ActiveLoop) (c : Chunk) (i : Instruction)
      → newest_ip (holding before ifs loops next (c ++ i ∷ [])) ≡ done (pos (length c))
  unfolding newest_ip ◌-ℤ◌
  newest_ip-holding ifs loops c i =
      rw (chunk_size-holding ifs loops (c ++ i ∷ [])) (ground (arith, length-append c (i ∷ [])))

  pub begin_while-holding :
      (ifs : List ActiveIfElse) (loops : List ActiveLoop) (c : Chunk)
      → emit_step (marked Op.meta_begin_while) (holding before ifs loops next c)
        ≡ done (true, holding before ifs (loops ++ fresh_loop (length c) ∷ []) next c)
  unfolding emit_step emit_oper_nonary emit_nonary_op begin_while
  begin_while-holding ifs loops c = rw (chunk_size-holding ifs loops c) refl

  pub mark_while_check-holding :
      (ifs : List ActiveIfElse) (loops : List ActiveLoop) (l : ActiveLoop) (c : Chunk)
      (i : Instruction)
      → emit_step
          (marked Op.meta_mark_while_check)
          (holding before ifs (loops ++ l ∷ []) next (c ++ i ∷ []))
        ≡ done (
          true,
          holding before ifs
              (loops ++ record l { check_ip = pos (length c) } ∷ [])
              next
              (c ++ i ∷ []),
        )
  unfolding emit_step emit_oper_nonary emit_nonary_op mark_while_check
  mark_while_check-holding ifs loops l c i =
      rw
        (
          newest_ip-holding ifs (loops ++ l ∷ []) c i,
          back-append loops l,
          set_back-append loops l (record l { check_ip = pos (length c) }),
        )
        refl

  pub mark_continue-holding :
      (ifs : List ActiveIfElse) (loops : List ActiveLoop) (l : ActiveLoop) (c : Chunk)
      (i : Instruction)
      → emit_step
          (marked Op.meta_mark_continue)
          (holding before ifs (loops ++ l ∷ []) next (c ++ i ∷ []))
        ≡ done (
          true,
          holding before ifs
              (loops ++ record l { cont_ips = l.cont_ips ++ pos (length c) ∷ [] } ∷ [])
              next
              (c ++ i ∷ []),
        )
  unfolding emit_step emit_oper_nonary emit_nonary_op mark_continue
  mark_continue-holding ifs loops l c i =
      rw
        (
          newest_ip-holding ifs (loops ++ l ∷ []) c i,
          back-append loops l,
          set_back-append loops l (record l { cont_ips = l.cont_ips ++ pos (length c) ∷ [] }),
        )
        refl

  note-back :
      (ls : List ActiveLoop) (ip : ℤ)
      → room true ls ≡ true
      → (l : ActiveLoop) × (back ls ≡ done l)
        × (set_back ls (record l { brk_ips = l.brk_ips ++ ip ∷ [] }) ≡ note ls (ip ∷ []))
  note-back [] ip h = absurd (cc)
  note-back (l ∷ []) ip h = (l, refl, refl)
  note-back (l ∷ m ∷ ls) ip h =
      let (k, last, set) = note-back (m ∷ ls) ip refl in (k, last, ap (◌∷◌ l) set)

  pub mark_break-holding :
      (ifs : List ActiveIfElse) (loops : List ActiveLoop) (c : Chunk) (i : Instruction)
      → room true loops ≡ true
      → emit_step (marked Op.meta_mark_break) (holding before ifs loops next (c ++ i ∷ []))
        ≡ done (true, holding before ifs (note loops (pos (length c) ∷ [])) next (c ++ i ∷ []))
  unfolding emit_step emit_oper_nonary emit_nonary_op mark_break
  mark_break-holding ifs loops c i h =
      let (l, last, set) = note-back loops (pos (length c)) h in
      rw (newest_ip-holding ifs loops c i, last, set) refl

  -- The end of a loop, once its jumps are known to be patched.
  pub end_while-holding :
      (ifs : List ActiveIfElse) (loops : List ActiveLoop) (l : ActiveLoop) (c : Chunk)
      (i : Instruction) {checked left repeated : Chunk}
      → patch_arg_1 (pos (length c)) (c ++ i ∷ []) l.check_ip ≡ done checked
      → patch_jumps (pos (length c)) l.brk_ips checked ≡ done left
      → patch_jumps l.start_ip l.cont_ips left ≡ done repeated
      → emit_step
          (marked Op.meta_end_while)
          (holding before ifs (loops ++ l ∷ []) next (c ++ i ∷ []))
        ≡ done (true, holding before ifs loops next repeated)
  unfolding emit_step emit_oper_nonary emit_nonary_op end_while
  end_while-holding ifs loops l c i {repeated} h1 h2 h3 =
      rw
        (
          newest_ip-holding ifs (loops ++ l ∷ []) c i,
          back-append loops l,
          back-append before (c ++ i ∷ []),
          h1,
          h2,
          h3,
          set_back-append before (c ++ i ∷ []) repeated,
          drop_last-append loops l,
        )
        refl

  pub begin_if_else-holding :
      (ifs : List ActiveIfElse) (loops : List ActiveLoop) (c : Chunk)
      → emit_step (marked Op.meta_begin_if_else) (holding before ifs loops next c)
        ≡ done (true, holding before (ifs ++ fresh_if ∷ []) loops next c)
  unfolding emit_step emit_oper_nonary emit_nonary_op begin_if_else
  begin_if_else-holding ifs loops c = refl

  pub mark_if_else_check-holding :
      (ifs : List ActiveIfElse) (f : ActiveIfElse) (loops : List ActiveLoop) (c : Chunk)
      (i : Instruction)
      → emit_step
          (marked Op.meta_mark_if_else_check)
          (holding before (ifs ++ f ∷ []) loops next (c ++ i ∷ []))
        ≡ done (
          true,
          holding before
              (ifs ++ record f { check_ip = pos (length c) } ∷ [])
              loops
              next
              (c ++ i ∷ []),
        )
  unfolding emit_step emit_oper_nonary emit_nonary_op mark_if_else_check
  mark_if_else_check-holding ifs f loops c i =
      rw
        (
          newest_ip-holding (ifs ++ f ∷ []) loops c i,
          back-append ifs f,
          set_back-append ifs f (record f { check_ip = pos (length c) }),
        )
        refl

  pub mark_if_else_alt-holding :
      (ifs : List ActiveIfElse) (f : ActiveIfElse) (loops : List ActiveLoop) (c : Chunk)
      (i : Instruction)
      → emit_step
          (marked Op.meta_mark_if_else_alt)
          (holding before (ifs ++ f ∷ []) loops next (c ++ i ∷ []))
        ≡ done (
          true,
          holding before
              (ifs ++ record f { alt_ip = pos (length c) } ∷ [])
              loops
              next
              (c ++ i ∷ []),
        )
  unfolding emit_step emit_oper_nonary emit_nonary_op mark_if_else_alt
  mark_if_else_alt-holding ifs f loops c i =
      rw
        (
          newest_ip-holding (ifs ++ f ∷ []) loops c i,
          back-append ifs f,
          set_back-append ifs f (record f { alt_ip = pos (length c) }),
        )
        refl

  -- The end of a conditional, once its jumps are known to be patched.
  pub end_if_else-holding :
      (ifs : List ActiveIfElse) (f : ActiveIfElse) (loops : List ActiveLoop) (c : Chunk)
      (i : Instruction) {patched : Chunk}
      → patch_if f (pos (length c)) (c ++ i ∷ []) ≡ done patched
      → emit_step
          (marked Op.meta_end_if_else)
          (holding before (ifs ++ f ∷ []) loops next (c ++ i ∷ []))
        ≡ done (true, holding before ifs loops next patched)
  unfolding emit_step emit_oper_nonary emit_nonary_op end_if_else
  end_if_else-holding ifs f loops c i {patched} h =
      rw
        (
          newest_ip-holding (ifs ++ f ∷ []) loops c i,
          back-append ifs f,
          back-append before (c ++ i ∷ []),
          h,
          set_back-append before (c ++ i ∷ []) patched,
          drop_last-append ifs f,
        )
        refl
