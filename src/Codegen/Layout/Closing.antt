-- ===== src/Codegen/Layout/Closing.antt =====
-- The ends of loops and conditionals, where the jumps of the code before them are patched.
use minuet_lang_mirror.Base.{
  ℕ, ℤ, pos, negsuc, suc, ◌+ℤ◌, ◌≡◌, refl, true, false, ◌>>=◌, List, [], ◌∷◌, ◌++◌, length,
  length-append, done, arith, wrap16, eq_ℤ,
}
use mathlib.Core.List.{append_assoc}
use minuet_lang_mirror.Ir.Steps.{Op}
use minuet_lang_mirror.Runtime.Bytecode.{Instruction, Chunk}
use minuet_lang_mirror.Codegen.Emitter.State.{
  ActiveIfElse, ActiveLoop, patch_arg_0, patch_arg_1, patch_jumps,
}
use minuet_lang_mirror.Codegen.Emitter.Patching.{patch_if}
use minuet_lang_mirror.Codegen.Emitter.Blocks.{emit_step}
use minuet_lang_mirror.Codegen.Layout.{marked}
use minuet_lang_mirror.Codegen.Layout.Steps.{holding}
use minuet_lang_mirror.Codegen.Layout.Marks.{end_while-holding, end_if_else-holding}
use minuet_lang_mirror.Codegen.Layout.Patches.{
  patch_arg_0-middle, patch_arg_1-middle, Patches, patch_jumps-Patches,
}

abbrev pub sent_0 : Instruction → ℤ → Instruction
sent_0 i target = record i { arg_0 = wrap16 target }

abbrev pub sent_1 : Instruction → ℤ → Instruction
sent_1 i target = record i { arg_1 = wrap16 target }

-- A check behind `xs`, a body, a jump and the closing instruction.
module _ (xs body : Chunk) (check jump last : Instruction) where
  shape :
      ((xs ++ check ∷ []) ++ body) ++ jump ∷ last ∷ [] ≡ xs ++ check ∷ (body ++ jump ∷ last ∷ [])
  shape = simp append_assoc refl

  opened :
      (xs ++ check ∷ []) ++ (body ++ jump ∷ last ∷ []) ≡ xs ++ check ∷ (body ++ jump ∷ last ∷ [])
  opened = simp append_assoc refl

  ended :
      (((xs ++ check ∷ []) ++ body) ++ jump ∷ []) ++ last ∷ []
      ≡ xs ++ check ∷ (body ++ jump ∷ last ∷ [])
  ended = simp append_assoc refl

patch_if-alternative :
    (f : ActiveIfElse) (end : ℤ) (c : Chunk) (n : ℕ)
    → f.alt_ip ≡ pos n
    → patch_if f end c
      ≡ (patch_arg_1 (pos (suc n)) c f.check_ip >>= λ checked. patch_arg_0 end checked (pos n))
unfolding patch_if ◌+ℤ◌
patch_if-alternative f end c n alt =
    let some_alt : eq_ℤ (pos n) (negsuc 0) ≡ false = ground arith in
    let behind : pos n +ℤ pos 1 ≡ pos (suc n) = ground arith in rw (alt, some_alt, behind) refl

module _ (before : List Chunk) (ifs : List ActiveIfElse) (loops : List ActiveLoop) (next : ℤ)
    (xs : Chunk) (check : Instruction) (body : Chunk) (jump last : Instruction) where
  abbrev pub open_loop : Chunk
  open_loop = ((xs ++ check ∷ []) ++ body) ++ jump ∷ []

  abbrev pub ending_loop : List ℤ → ℤ → ActiveLoop
  ending_loop ips start = record {
    brk_ips = ips;
    cont_ips = pos (length ((xs ++ check ∷ []) ++ body)) ∷ [];
    start_ip = start;
    check_ip = pos (length xs);
    exit_ip = pos 0;
  }

  -- The check gets the end, the breaks the end, and the jump the start.
  pub end_while-closes :
      (ips : List ℤ) (start : ℤ) (body' : Chunk)
      → Patches (pos (length open_loop)) (length (xs ++ check ∷ [])) ips body body'
      → length body ≡ length body'
      → emit_step
          (marked Op.meta_end_while)
          (holding before ifs (loops ++ ending_loop ips start ∷ []) next (open_loop ++ last ∷ []))
        ≡ done (
          true,
          holding before ifs loops next (
              ((xs ++ sent_1 check (pos (length open_loop)) ∷ []) ++ body')
              ++ sent_0 jump start ∷ last ∷ []),
        )
  unfolding patch_jumps
  end_while-closes ips start body' p same =
      let end = pos (length open_loop) in
      let check' = sent_1 check end in
      end_while-holding before next ifs loops (ending_loop ips start) open_loop last
        {checked = xs ++ check' ∷ (body ++ jump ∷ last ∷ [])}
        {left = (xs ++ check' ∷ []) ++ (body' ++ jump ∷ last ∷ [])}
        (rw (ended xs body check jump last)
          (patch_arg_1-middle end xs check (body ++ jump ∷ last ∷ []) (length xs) refl))
        (rw (← opened xs body check' jump last) (
          patch_jumps-Patches p (xs ++ check' ∷ []) (jump ∷ last ∷ [])
            (omega (arith, length-append xs (check ∷ []), length-append xs (check' ∷ [])))))
        (rw
          (
            ← append_assoc (xs ++ check' ∷ []) body' (jump ∷ last ∷ []),
            patch_arg_0-middle start ((xs ++ check' ∷ []) ++ body') jump (last ∷ [])
                (length ((xs ++ check ∷ []) ++ body))
                (omega (
                  arith,
                  same,
                  length-append (xs ++ check ∷ []) body,
                  length-append (xs ++ check' ∷ []) body',
                  length-append xs (check ∷ []),
                  length-append xs (check' ∷ []),
                )),
          )
          refl)

  -- The conditional without an alternative: its check gets the end.
  pub end_if-closes :
      (ends : ActiveIfElse)
      → ends.check_ip ≡ pos (length xs)
      → ends.alt_ip ≡ negsuc 0
      → emit_step
          (marked Op.meta_end_if_else)
          (holding before (ifs ++ ends ∷ []) loops next (((xs ++ check ∷ []) ++ body) ++ last ∷ []))
        ≡ done (
          true,
          holding before ifs loops next (
              ((xs ++ sent_1 check (pos (length ((xs ++ check ∷ []) ++ body))) ∷ []) ++ body)
              ++ last ∷ []),
        )
  unfolding patch_if
  end_if-closes ends at none =
      let end = pos (length ((xs ++ check ∷ []) ++ body)) in
      let check' = sent_1 check end in
      end_if_else-holding before next ifs ends loops ((xs ++ check ∷ []) ++ body) last (
        rw
          (
            none,
            at,
            append_assoc (xs ++ check ∷ []) body (last ∷ []),
            append_assoc xs (check ∷ []) (body ++ last ∷ []),
            append_assoc (xs ++ check' ∷ []) body (last ∷ []),
            append_assoc xs (check' ∷ []) (body ++ last ∷ []),
          )
          (patch_arg_1-middle end xs check (body ++ last ∷ []) (length xs) refl))

  -- The conditional with one: its check gets the instruction behind the jump, and the jump the end.
  pub end_if_else-closes :
      (other : Chunk) (ends : ActiveIfElse)
      → ends.check_ip ≡ pos (length xs)
      → ends.alt_ip ≡ pos (length ((xs ++ check ∷ []) ++ body))
      → emit_step
          (marked Op.meta_end_if_else)
          (holding before (ifs ++ ends ∷ []) loops next ((open_loop ++ other) ++ last ∷ []))
        ≡ done (
          true,
          holding before ifs loops next (
              (((xs ++ sent_1 check (pos (suc (length ((xs ++ check ∷ []) ++ body)))) ∷ []) ++ body)
                ++ sent_0 jump (pos (length (open_loop ++ other))) ∷ other)
              ++ last ∷ []),
        )
  unfolding patch_if ◌+ℤ◌
  end_if_else-closes other ends at alt =
      let n = length ((xs ++ check ∷ []) ++ body) in
      let end = pos (length (open_loop ++ other)) in
      let check' = sent_1 check (pos (suc n)) in
      let jump' = sent_0 jump end in
      let whole : (open_loop ++ other) ++ last ∷ []
          ≡ xs ++ check ∷ (body ++ jump ∷ (other ++ last ∷ [])) =
        simp append_assoc refl in
      let halfway : xs ++ check' ∷ (body ++ jump ∷ (other ++ last ∷ []))
          ≡ ((xs ++ check' ∷ []) ++ body) ++ jump ∷ (other ++ last ∷ []) =
        simp append_assoc refl in
      let result : (((xs ++ check' ∷ []) ++ body) ++ jump' ∷ other) ++ last ∷ []
          ≡ ((xs ++ check' ∷ []) ++ body) ++ jump' ∷ (other ++ last ∷ []) =
        append_assoc ((xs ++ check' ∷ []) ++ body) (jump' ∷ other) (last ∷ []) in
      end_if_else-holding before next ifs ends loops (open_loop ++ other) last (
        rw
          (
            patch_if-alternative ends end ((open_loop ++ other) ++ last ∷ []) n alt,
            at,
            whole,
            patch_arg_1-middle (pos (suc n)) xs check (body ++ jump ∷ (other ++ last ∷ []))
                (length xs) refl,
            halfway,
            result,
          )
          (patch_arg_0-middle end ((xs ++ check' ∷ []) ++ body) jump (other ++ last ∷ []) n (
            omega (
              arith,
              length-append (xs ++ check ∷ []) body,
              length-append (xs ++ check' ∷ []) body,
              length-append xs (check ∷ []),
              length-append xs (check' ∷ []),
            ))))
