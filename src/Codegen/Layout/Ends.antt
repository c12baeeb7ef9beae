-- ===== src/Codegen/Layout/Ends.antt =====
-- The ends of loops and conditionals with the targets under other names.
use minuet_lang_mirror.Base.{ℕ, ℤ, pos, negsuc, suc, ◌≡◌, true, List, [], ◌∷◌, ◌++◌, length, done}
use minuet_lang_mirror.Ir.Steps.{Op}
use minuet_lang_mirror.Runtime.Bytecode.{Instruction, Chunk}
use minuet_lang_mirror.Codegen.Emitter.State.{ActiveIfElse, ActiveLoop}
use minuet_lang_mirror.Codegen.Emitter.Blocks.{emit_step}
use minuet_lang_mirror.Codegen.Layout.{marked}
use minuet_lang_mirror.Codegen.Layout.Steps.{holding}
use minuet_lang_mirror.Codegen.Layout.Patches.{Patches}
use minuet_lang_mirror.Codegen.Layout.Closing.{
  sent_0, sent_1, ending_loop, end_while-closes, end_if-closes, end_if_else-closes,
}

module _ (before : List Chunk) (ifs : List ActiveIfElse) (loops : List ActiveLoop) (next : ℤ)
    (xs : Chunk) (check : Instruction) (body : Chunk) (jump last : Instruction) where
  pub end_while-named :
      (ips : List ℤ) (start : ℤ) (body' : Chunk) (end : ℕ)
      → end ≡ length (((xs ++ check ∷ []) ++ body) ++ jump ∷ [])
      → Patches (pos end) (length (xs ++ check ∷ [])) ips body body'
      → length body ≡ length body'
      → emit_step (marked Op.meta_end_while) (
          holding before ifs
            (loops ++ ending_loop before ifs loops next xs check body jump last ips start ∷ [])
            next
            ((((xs ++ check ∷ []) ++ body) ++ jump ∷ []) ++ last ∷ []))
        ≡ done (
          true,
          holding before ifs loops next
              (((xs ++ sent_1 check (pos end) ∷ []) ++ body') ++ sent_0 jump start ∷ last ∷ []),
        )
  end_while-named ips start body' end h p same = rw h (
      end_while-closes before ifs loops next xs check body jump last ips start body' (rw (← h) p)
        same)

  pub end_if-named :
      (ends : ActiveIfElse) (end : ℕ)
      → end ≡ length ((xs ++ check ∷ []) ++ body)
      → ends.check_ip ≡ pos (length xs)
      → ends.alt_ip ≡ negsuc 0
      → emit_step
          (marked Op.meta_end_if_else)
          (holding before (ifs ++ ends ∷ []) loops next (((xs ++ check ∷ []) ++ body) ++ last ∷ []))
        ≡ done (
          true,
          holding before ifs loops next
              (((xs ++ sent_1 check (pos end) ∷ []) ++ body) ++ last ∷ []),
        )
  end_if-named ends end h at none =
      rw h (end_if-closes before ifs loops next xs check body jump last ends at none)

  pub end_if_else-named :
      (other : Chunk) (ends : ActiveIfElse) (alternative end : ℕ)
      → alternative ≡ suc (length ((xs ++ check ∷ []) ++ body))
      → end ≡ length ((((xs ++ check ∷ []) ++ body) ++ jump ∷ []) ++ other)
      → ends.check_ip ≡ pos (length xs)
      → ends.alt_ip ≡ pos (length ((xs ++ check ∷ []) ++ body))
      → emit_step (marked Op.meta_end_if_else) (
          holding before
            (ifs ++ ends ∷ [])
            loops
            next
            (((((xs ++ check ∷ []) ++ body) ++ jump ∷ []) ++ other) ++ last ∷ []))
        ≡ done (
          true,
          holding before ifs loops next (
              (((xs ++ sent_1 check (pos alternative) ∷ []) ++ body)
                ++ sent_0 jump (pos end) ∷ other)
              ++ last ∷ []),
        )
  end_if_else-named other ends alternative end h1 h2 at alt =
      rw (h1, h2)
        (end_if_else-closes before ifs loops next xs check body jump last other ends at alt)
