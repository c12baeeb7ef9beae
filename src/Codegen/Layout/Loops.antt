-- ===== src/Codegen/Layout/Loops.antt =====
-- A loop: its check, its breaks and its jump back get their targets.
use minuet_lang_mirror.Base.{
  ℤ, pos, ◌+◌, ◌≡◌, refl, sym, ◌∙◌, true, false, List, [], ◌∷◌, ◌++◌, length, length-append, arith,
}
use mathlib.Core.List.{append_assoc}
use minuet_lang_mirror.Ir.Steps.{AbsAddress}
use minuet_lang_mirror.Runtime.Bytecode.{Chunk}
use minuet_lang_mirror.Codegen.Emitter.Metadata.{mode_of}
use minuet_lang_mirror.Codegen.Emitter.Patching.{bare_nop}
use minuet_lang_mirror.Codegen.Layout.{
  Code, loop, layout, breaks, size, valid, check_to, jump_to, is_some,
}
use minuet_lang_mirror.Codegen.Layout.Steps.{finished, next, append-Emits}
use minuet_lang_mirror.Codegen.Layout.Marks.{
  begin_while-holding, mark_while_check-holding, mark_continue-holding,
}
use minuet_lang_mirror.Codegen.Layout.Noting.{note, room-append, note-nil, note-append, fresh_loop}
use minuet_lang_mirror.Codegen.Layout.Patches.{length-layout, layout-Patches}
use minuet_lang_mirror.Codegen.Layout.Ends.{end_while-named}
use minuet_lang_mirror.Codegen.Layout.Pieces.{
  both_true, blank_check, jump_emitted, nop_emitted, check_emitted, land, Emitted,
  condition_emitted,
}

module _ (before : List Chunk) (id : ℤ) where
  pub loop-Emitted :
      (check : Code) (condition : AbsAddress) (body : Code)
      → Emitted before id check
      → Emitted before id body
      → Emitted before id (loop check condition body)
  unfolding valid breaks layout check_to jump_to
  loop-Emitted check condition body hc hb inside ifs loops c base e h r =
      let (front, vb) = both_true _ (valid true body) h in
      let (vc, named) = both_true (valid false check) (is_some (mode_of condition.tag)) front in
      let first = layout (pos 0) (base + 1) check in
      let xs = (c ++ bare_nop ∷ []) ++ first in
      let tested = xs ++ blank_check condition ∷ [] in
      let middle = base + size check + 2 in
      let end = base + size check + size body + 3 in
      let second = layout (pos 0) middle body in
      let second' = layout (pos end) middle body in
      let l0 = fresh_loop (length c) in
      let l1 = record l0 { check_ip = pos (length xs) } in
      let l2 = record l1 { brk_ips = breaks middle body } in
      let l3 = record l2 { cont_ips = pos (length (tested ++ second)) ∷ [] } in
      let size_xs : length xs ≡ base + size check + 1 = omega (
        arith,
        length-append c (bare_nop ∷ []),
        length-append (c ++ bare_nop ∷ []) first,
        length-layout check (pos 0) (base + 1),
      ) in
      let size_tested : middle ≡ length tested =
        omega (arith, length-append xs (blank_check condition ∷ [])) in
      let size_second : length second ≡ size body = length-layout body (pos 0) middle in
      let size_all : end ≡ length ((tested ++ second) ++ jump_to (pos 0) ∷ []) = omega (
        arith,
        length-append (tested ++ second) (jump_to (pos 0) ∷ []),
        length-append tested second,
      ) in
      let entered = next (begin_while-holding before id ifs loops c) (
        next (nop_emitted before id ifs (loops ++ l0 ∷ []) c) (
          condition_emitted before id check hc ifs (loops ++ l0 ∷ []) (c ++ bare_nop ∷ [])
            (base + 1) (omega (arith, length-append c (bare_nop ∷ []))) vc)) in
      let inner = next (check_emitted before id ifs (loops ++ l0 ∷ []) xs condition named) (
        next (mark_while_check-holding before id ifs loops l0 xs (blank_check condition)) (
          land before id ifs (note (loops ++ l1 ∷ []) (breaks middle body)) (loops ++ l2 ∷ [])
            (tested ++ second) (tested ++ second) (note-append loops l1 (breaks middle body)) refl
            (hb true ifs (loops ++ l1 ∷ []) tested middle size_tested vb
              (room-append true loops l1)))) in
      let left = next (jump_emitted before id ifs (loops ++ l2 ∷ []) (tested ++ second)) (
        next (mark_continue-holding before id ifs loops l2 (tested ++ second) (jump_to (pos 0))) (
          next
            (nop_emitted before id ifs (loops ++ l3 ∷ [])
              ((tested ++ second) ++ jump_to (pos 0) ∷ []))
            (next
              (end_while-named before ifs loops id xs (blank_check condition) second
                (jump_to (pos 0)) bare_nop (breaks middle body) (pos (length c)) second' end
                size_all (rw (← size_tested) (layout-Patches body (pos end) middle))
                (size_second ∙ sym (length-layout body (pos end) middle)))
              finished))) in
      land before id ifs loops (note loops [])
        (((xs ++ check_to condition (pos end) ∷ []) ++ second')
          ++ jump_to (pos (length c)) ∷ bare_nop ∷ [])
        (c ++ layout (pos 0) base (loop check condition body)) (sym (note-nil loops))
        (rw e (simp append_assoc refl)) (append-Emits entered (append-Emits inner left))
