-- ===== src/Codegen/Layout/Emission.antt =====
-- The emitter turns the steps of structured code into its layout.
use minuet_lang_mirror.Base.{ℤ, pos, ◌≡◌, refl, true, false, List, ◌++◌, length, done}
use minuet_lang_mirror.Runtime.Bytecode.{Chunk}
use minuet_lang_mirror.Codegen.Emitter.State.{ActiveIfElse, ActiveLoop}
use minuet_lang_mirror.Codegen.Layout.{
  Code, skip, leave, straight, seq, loop, branch, branch_else, layout, breaks, valid, steps_of,
}
use minuet_lang_mirror.Codegen.Layout.Steps.{holding, emit_steps-Emits}
use minuet_lang_mirror.Codegen.Layout.Noting.{note, note-nil}
use minuet_lang_mirror.Codegen.Layout.Pieces.{
  breaks-closed, land, Emitted, skip-Emitted, single-Emitted, seq-Emitted, leave-Emitted,
}
use minuet_lang_mirror.Codegen.Layout.Loops.{loop-Emitted}
use minuet_lang_mirror.Codegen.Layout.Branches.{branch-Emitted, branch_else-Emitted}
use minuet_lang_mirror.Codegen.Emitter.Blocks.{emit_bb}
use minuet_lang_mirror.Ir.Graph.{BasicBlock}

code-Emitted : (before : List Chunk) (id : ℤ) (k : Code) → Emitted before id k
code-Emitted before id skip = skip-Emitted before id
code-Emitted before id leave = leave-Emitted before id
code-Emitted before id (straight s) = single-Emitted before id s
code-Emitted before id (seq a b) =
    seq-Emitted before id a b (code-Emitted before id a) (code-Emitted before id b)
code-Emitted before id (loop check condition body) =
    loop-Emitted before id check condition body (code-Emitted before id check)
      (code-Emitted before id body)
code-Emitted before id (branch check condition body) =
    branch-Emitted before id check condition body (code-Emitted before id check)
      (code-Emitted before id body)
code-Emitted before id (branch_else check condition body other) =
    branch_else-Emitted before id check condition body other (code-Emitted before id check)
      (code-Emitted before id body) (code-Emitted before id other)

-- A block that holds the steps of structured code, with no break outside of a loop, is emitted, whatever the emitter has emitted and opened before: the newest chunk is extended by the layout of the code, where every jump has its target, and the emitter is the same otherwise.
pub emit_bb-layout :
    (k : Code) (bb : BasicBlock) (before : List Chunk) (ifs : List ActiveIfElse)
    (loops : List ActiveLoop) (next_id : ℤ) (c : Chunk)
    → bb.steps ≡ steps_of k
    → valid false k ≡ true
    → emit_bb bb (holding before ifs loops next_id c)
      ≡ done (true, holding before ifs loops next_id (c ++ layout (pos 0) (length c) k))
unfolding emit_bb
emit_bb-layout k bb before ifs loops next_id c same h = rw same (
    emit_steps-Emits (
      land before next_id ifs (note loops (breaks (length c) k)) loops
        (c ++ layout (pos 0) (length c) k) (c ++ layout (pos 0) (length c) k)
        (rw (breaks-closed k (length c) h) (note-nil loops)) refl
        (code-Emitted before next_id k false ifs loops c (length c) refl h refl)))
