-- ===== src/Codegen/Emitter/Blocks.antt =====
-- src/bcgen/emitter.cpp: a step, a block, a graph and a whole program.
use minuet_lang_mirror.Base.{
  ℕ, ℤ, pos, zero, suc, Bool, true, false, List, [], ◌∷◌, ◌++◌, Option, none, some, eq_ℤ, ◌+◌, ◌*◌,
  ◌||◌, length, Run, done, fault, no_fuel, ◌>>=◌, if◌then◌else◌,
}
use minuet_lang_mirror.Ir.Steps.{
  Step, tac_unary, tac_binary, oper_nonary, oper_unary, oper_binary, oper_ternary,
}
use minuet_lang_mirror.Ir.Graph.{BasicBlock, Cfg, FullIr, get_bb, dud_bb_id}
use minuet_lang_mirror.Runtime.Bytecode.{Program}
use minuet_lang_mirror.Codegen.Emitter.State.{Emitter, fresh_emitter}
use minuet_lang_mirror.Codegen.Emitter.Plain.{
  emit_tac_unary, emit_tac_binary, emit_oper_unary, emit_oper_binary, emit_oper_ternary,
}
use minuet_lang_mirror.Codegen.Emitter.Patching.{emit_oper_nonary}

unfoldable pub emit_step : Step → Emitter → Run (Bool × Emitter)
unfolding emit_tac_unary emit_tac_binary emit_oper_nonary emit_oper_unary emit_oper_binary
    emit_oper_ternary
emit_step (tac_unary s) e = emit_tac_unary s e
emit_step (tac_binary s) e = emit_tac_binary s e
emit_step (oper_nonary s) e = emit_oper_nonary s e
emit_step (oper_unary s) e = emit_oper_unary s e
emit_step (oper_binary s) e = emit_oper_binary s e
emit_step (oper_ternary s) e = emit_oper_ternary s e

-- The loop over the steps of a block.
unfoldable pub emit_steps : List Step → Emitter → Run (Bool × Emitter)
unfolding emit_step
emit_steps [] e = done (true, e)
emit_steps (s ∷ ss) e = do
  (ok, e') ← emit_step s e
  let rest = emit_steps ss e'
  if ok then rest else done (false, e')

unfoldable pub emit_bb : BasicBlock → Emitter → Run (Bool × Emitter)
unfolding emit_steps
emit_bb bb e = emit_steps bb.steps e

abbrev pub contains : List ℤ → ℤ → Bool
contains [] id = false
contains (x ∷ xs) id = eq_ℤ x id || contains xs id

abbrev pub push_child : ℤ → List ℤ → List ℤ
push_child id frontier = if eq_ℤ id dud_bb_id then frontier else id ∷ frontier

-- The children of a block on the stack, the truthy one on top.
abbrev pub push_children : BasicBlock → List ℤ → List ℤ
push_children bb frontier = push_child bb.truthy_id (push_child bb.falsy_id frontier)

-- The loop over the frontier, a stack with its top first.
unfoldable pub walk : Cfg → ℕ → List ℤ → List ℤ → Emitter → Run (Bool × Emitter)
unfolding get_bb emit_bb
walk cfg fuel visited [] e = done (true, e)
walk cfg zero visited (id ∷ frontier) e = fault no_fuel
walk cfg (suc fuel) visited (id ∷ frontier) e =
    let skipped = walk cfg fuel visited frontier e in
    let entered : Run (Bool × Emitter) = elim (get_bb cfg id) [
      | none ↦ done (false, e)
      | some bb ↦ emit_bb bb e >>= λ p.
          let rest = walk cfg fuel (id ∷ visited) (push_children bb frontier) p.1 in
          if p.0 then rest else done (false, p.1)
    ] in
    if contains visited id then skipped else entered

-- Every block is entered once at most and pushes two children.
abbrev pub walk_fuel : Cfg → ℕ
walk_fuel cfg = 3 * length cfg + 2

unfoldable pub emit_chunk : Cfg → Emitter → Run (Bool × Emitter)
unfolding walk
emit_chunk cfg e =
    walk cfg (walk_fuel cfg) [] (pos 0 ∷ [])
      (record e { result_chunks = e.result_chunks ++ [] ∷ [] })

-- The loop over the graphs.
unfoldable pub emit_chunks : List Cfg → Emitter → Run (Bool × Emitter)
unfolding emit_chunk
emit_chunks [] e = done (true, e)
emit_chunks (cfg ∷ cfgs) e = do
  (ok, e') ← emit_chunk cfg e
  let rest = emit_chunks cfgs e'
  if ok then rest else done (false, e')

abbrev program_of : FullIr → Bool × Emitter → Option Program
program_of ir (false, e) = none
program_of ir (true, e) = some (record {
  constants = ir.constants;
  pre_objects = ir.pre_objects;
  chunks = e.result_chunks;
  entry_id = some ir.main_id;
})

-- `operator()` of a fresh emitter.
unfoldable pub emit : FullIr → Run (Option Program)
unfolding emit_chunks fresh_emitter
emit ir = emit_chunks ir.cfg_list fresh_emitter >>= λ p. done (program_of ir p)
