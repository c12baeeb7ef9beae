-- ===== src/Codegen/Layout/Branches.antt =====
-- Conditionals: the check and the jump behind the first branch get their targets.
use minuet_lang_mirror.Base.{
  ℤ, pos, suc, ◌+◌, ◌≡◌, refl, false, List, [], ◌∷◌, ◌++◌, length, length-append, arith,
}
use mathlib.Core.List.{append_assoc}
use minuet_lang_mirror.Ir.Steps.{AbsAddress}
use minuet_lang_mirror.Runtime.Bytecode.{Chunk}
use minuet_lang_mirror.Codegen.Emitter.Metadata.{mode_of}
use minuet_lang_mirror.Codegen.Emitter.Patching.{bare_nop}
use minuet_lang_mirror.Codegen.Layout.{
  Code, branch, branch_else, layout, breaks, size, valid, check_to, jump_to, is_some,
}
use minuet_lang_mirror.Codegen.Layout.Steps.{finished, next, append-Emits}
use minuet_lang_mirror.Codegen.Layout.Marks.{
  begin_if_else-holding, mark_if_else_check-holding, mark_if_else_alt-holding,
}
use minuet_lang_mirror.Codegen.Layout.Noting.{note, room-note, note-note, fresh_if}
use minuet_lang_mirror.Codegen.Layout.Patches.{length-layout}
use minuet_lang_mirror.Codegen.Layout.Ends.{end_if-named, end_if_else-named}
use minuet_lang_mirror.Codegen.Layout.Pieces.{
  both_true, blank_check, jump_emitted, nop_emitted, check_emitted, land, Emitted,
  condition_emitted,
}

module _ (before : List Chunk) (id : ℤ) where
  pub branch-Emitted :
      (check : Code) (condition : AbsAddress) (body : Code)
      → Emitted before id check
      → Emitted before id body
      → Emitted before id (branch check condition body)
  unfolding valid breaks layout check_to
  branch-Emitted check condition body hc hb inside ifs loops c base e h r =
      let (front, vb) = both_true _ (valid inside body) h in
      let (vc, named) = both_true (valid false check) (is_some (mode_of condition.tag)) front in
      let xs = c ++ layout (pos 0) base check in
      let tested = xs ++ blank_check condition ∷ [] in
      let middle = base + size check + 1 in
      let end = base + size check + size body + 1 in
      let second = layout (pos 0) middle body in
      let noted = note loops (breaks middle body) in
      let f1 = record fresh_if { check_ip = pos (length xs) } in
      let size_xs : length xs ≡ base + size check =
        omega
          (arith, length-append c (layout (pos 0) base check), length-layout check (pos 0) base) in
      let size_tested : middle ≡ length tested =
        omega (arith, length-append xs (blank_check condition ∷ [])) in
      let size_all : end ≡ length (tested ++ second) =
        omega (arith, length-append tested second, length-layout body (pos 0) middle) in
      let entered =
        next (begin_if_else-holding before id ifs loops c)
          (condition_emitted before id check hc (ifs ++ fresh_if ∷ []) loops c base e vc) in
      let inner = next (check_emitted before id (ifs ++ fresh_if ∷ []) loops xs condition named) (
        next (mark_if_else_check-holding before id ifs fresh_if loops xs (blank_check condition))
          (hb inside (ifs ++ f1 ∷ []) loops tested middle size_tested vb r)) in
      let left = next (nop_emitted before id (ifs ++ f1 ∷ []) noted (tested ++ second)) (
        next
          (end_if-named before ifs noted id xs (blank_check condition) second bare_nop bare_nop f1
            end size_all refl refl)
          finished) in
      land before id ifs noted noted
        (((xs ++ check_to condition (pos end) ∷ []) ++ second) ++ bare_nop ∷ [])
        (c ++ layout (pos 0) base (branch check condition body)) refl (simp append_assoc refl)
        (append-Emits entered (append-Emits inner left))

  pub branch_else-Emitted :
      (check : Code) (condition : AbsAddress) (body other : Code)
      → Emitted before id check
      → Emitted before id body
      → Emitted before id other
      → Emitted before id (branch_else check condition body other)
  unfolding valid breaks layout check_to jump_to
  branch_else-Emitted check condition body other hc hb ho inside ifs loops c base e h r =
      let (most, vo) = both_true _ (valid inside other) h in
      let (front, vb) = both_true _ (valid inside body) most in
      let (vc, named) = both_true (valid false check) (is_some (mode_of condition.tag)) front in
      let xs = c ++ layout (pos 0) base check in
      let tested = xs ++ blank_check condition ∷ [] in
      let middle = base + size check + 1 in
      let alternative = base + size check + size body + 2 in
      let end = alternative + size other + 1 in
      let second = layout (pos 0) middle body in
      let third = layout (pos 0) (alternative + 1) other in
      let jumped = (tested ++ second) ++ jump_to (pos 0) ∷ [] in
      let noted = note loops (breaks middle body) in
      let noted' = note noted (breaks (alternative + 1) other) in
      let f1 = record fresh_if { check_ip = pos (length xs) } in
      let f2 = record f1 { alt_ip = pos (length (tested ++ second)) } in
      let size_xs : length xs ≡ base + size check =
        omega
          (arith, length-append c (layout (pos 0) base check), length-layout check (pos 0) base) in
      let size_tested : middle ≡ length tested =
        omega (arith, length-append xs (blank_check condition ∷ [])) in
      let size_then : alternative ≡ suc (length (tested ++ second)) =
        omega (arith, length-append tested second, length-layout body (pos 0) middle) in
      let size_jumped : alternative + 1 ≡ length (jumped ++ bare_nop ∷ []) = omega (
        arith,
        length-append jumped (bare_nop ∷ []),
        length-append (tested ++ second) (jump_to (pos 0) ∷ []),
      ) in
      let size_all : end ≡ length (jumped ++ (bare_nop ∷ third)) = omega (
        arith,
        length-append jumped (bare_nop ∷ []),
        length-append jumped (bare_nop ∷ third),
        length-layout other (pos 0) (alternative + 1),
      ) in
      let entered =
        next (begin_if_else-holding before id ifs loops c)
          (condition_emitted before id check hc (ifs ++ fresh_if ∷ []) loops c base e vc) in
      let inner = next (check_emitted before id (ifs ++ fresh_if ∷ []) loops xs condition named) (
        next (mark_if_else_check-holding before id ifs fresh_if loops xs (blank_check condition))
          (hb inside (ifs ++ f1 ∷ []) loops tested middle size_tested vb r)) in
      let alternated = next (jump_emitted before id (ifs ++ f1 ∷ []) noted (tested ++ second)) (
        next (mark_if_else_alt-holding before id ifs f1 noted (tested ++ second) (jump_to (pos 0)))
          (next (nop_emitted before id (ifs ++ f2 ∷ []) noted jumped) (
            land before id (ifs ++ f2 ∷ []) noted' noted' ((jumped ++ bare_nop ∷ []) ++ third)
              (jumped ++ (bare_nop ∷ third)) refl (append_assoc jumped (bare_nop ∷ []) third)
              (ho inside (ifs ++ f2 ∷ []) noted (jumped ++ bare_nop ∷ []) (alternative + 1)
                size_jumped vo (room-note inside loops (breaks middle body) r))))) in
      let left =
        next (nop_emitted before id (ifs ++ f2 ∷ []) noted' (jumped ++ (bare_nop ∷ third))) (
          next
            (end_if_else-named before ifs noted' id xs (blank_check condition) second
              (jump_to (pos 0)) bare_nop (bare_nop ∷ third) f2 alternative end size_then size_all
              refl refl)
            finished) in
      land before id ifs noted' (note loops (breaks middle body ++ breaks (alternative + 1) other))
        ((((xs ++ check_to condition (pos alternative) ∷ []) ++ second)
            ++ jump_to (pos end) ∷ bare_nop ∷ third)
          ++ bare_nop ∷ [])
        (c ++ layout (pos 0) base (branch_else check condition body other))
        (note-note loops (breaks middle body) (breaks (alternative + 1) other))
        (simp append_assoc refl)
        (append-Emits entered (append-Emits inner (append-Emits alternated left)))
