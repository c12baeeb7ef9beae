-- ===== src/Tests/Codegen.antt =====
-- Runs of src/bcgen and src/ir/cfg.cpp on concrete steps and graphs.
use minuet_lang_mirror.Base.{
  ◌+ℤ◌, ℤ, ◌+◌, ◌≡◌, ◌≢◌, refl, arith, [], ◌∷◌, ◌++◌, pos, negsuc, true, false, some, done, fault,
  no_fuel, length,
}
use minuet_lang_mirror.Ir.Steps.{Op, AbsAddress, AbsAddrTag, Step, tac_binary, TacBinary}
use minuet_lang_mirror.Ir.Graph.{BasicBlock, Cfg, FullIr, get_bb, link_bb, dud_bb_id}
use minuet_lang_mirror.Ir.Linking.{Linked, link_bb-Linked}
use minuet_lang_mirror.Runtime.Bytecode.{
  Instruction, Chunk, ArgMode, instruct_arity, mode_0, mode_1, mode_2,
}
use minuet_lang_mirror.Runtime.Vm.Engine.{Machine, read_reg}
use minuet_lang_mirror.Runtime.FastValue.{truthy}
use minuet_lang_mirror.Runtime.Values.{boolean}
use minuet_lang_mirror.Runtime.Vm.Dispatch.{step}
use minuet_lang_mirror.Codegen.Emitter.Metadata.{
  PseudoArg, encode_one, encode_two, encode_three, translate_value_aa,
}
use minuet_lang_mirror.Codegen.Emitter.Plain.{binary_opcode}
use minuet_lang_mirror.Codegen.Emitter.Patching.{bare_nop}
use minuet_lang_mirror.Codegen.Emitter.Blocks.{emit_step, emit_bb, emit, emit_chunk}
use minuet_lang_mirror.Codegen.Layout.{
  Code, straight, leave, loop, branch_else, valid, lower, lowered, size, layout, steps_of, marked,
  jump_step, check_step,
}
use minuet_lang_mirror.Codegen.Layout.Steps.{holding}
use minuet_lang_mirror.Codegen.Layout.Emission.{emit_bb-layout}
use minuet_lang_mirror.Codegen.Layout.Targets.{emit_chunk-Lands}
use minuet_lang_mirror.Codegen.Layout.Ordering.{order}
use minuet_lang_mirror.Codegen.Layout.Landing.{Lands}
use minuet_lang_mirror.Codegen.Decoding.{encode-decodes}
use minuet_lang_mirror.Codegen.Walking.{emit-Ends}
use minuet_lang_mirror.Codegen.Operands.{Reads, emit_step-Reads}
use minuet_lang_mirror.Codegen.Control.{loop-Repeats}
use minuet_lang_mirror.Tests.Handlers.{machine, engine}

abbrev temp_aa : ℤ → AbsAddress
temp_aa n = record { tag = AbsAddrTag.temp; id = n }

abbrev constant_aa : ℤ → AbsAddress
constant_aa n = record { tag = AbsAddrTag.constant; id = n }

abbrev sum : TacBinary
sum = record {
  dest = temp_aa (pos 2);
  arg_0 = temp_aa (pos 0);
  arg_1 = constant_aa (pos 0);
  op = Op.add;
}

abbrev less : Step
less = tac_binary (record {
  dest = temp_aa (pos 3);
  arg_0 = temp_aa (pos 2);
  arg_1 = temp_aa (pos 0);
  op = Op.lt;
})

-- while less { if less { sum } else { break } }
abbrev sample : Code
sample =
    loop (straight less) (temp_aa (pos 3))
      (branch_else (straight less) (temp_aa (pos 3)) (straight (tac_binary sum)) leave)

abbrev sample_bb : BasicBlock
sample_bb = record { steps = steps_of sample; truthy_id = dud_bb_id; falsy_id = dud_bb_id }

sample-valid : valid false sample ≡ true
unfolding valid lower translate_value_aa
sample-valid = refl

sample_size : size sample ≡ 12
unfolding size lowered lower translate_value_aa
sample_size = refl

emit_bb-layout_example :
    emit_bb sample_bb (holding [] [] [] (pos 0) [])
    ≡ done (true, holding [] [] [] (pos 0) ([] ++ layout (pos 0) 0 sample))
emit_bb-layout_example = emit_bb-layout sample sample_bb [] [] [] (pos 0) [] refl sample-valid

-- The graph that the converter makes of this loop: its check, its body, and what is behind it.
abbrev loop_code : Code
loop_code = loop (straight less) (temp_aa (pos 2)) (straight (tac_binary sum))

abbrev check_bb : BasicBlock
check_bb = record {
  steps =
      marked Op.meta_begin_while
      ∷ marked Op.nop
      ∷ less
      ∷ check_step (temp_aa (pos 2))
      ∷ marked Op.meta_mark_while_check
      ∷ [];
  truthy_id = pos 1;
  falsy_id = pos 2;
}

abbrev body_bb : BasicBlock
body_bb = record {
  steps = tac_binary sum ∷ jump_step ∷ marked Op.meta_mark_continue ∷ [];
  truthy_id = pos 0;
  falsy_id = dud_bb_id;
}

abbrev end_bb : BasicBlock
end_bb = record {
  steps = marked Op.nop ∷ marked Op.meta_end_while ∷ [];
  truthy_id = dud_bb_id;
  falsy_id = dud_bb_id;
}

abbrev loop_graph : Cfg
loop_graph = check_bb ∷ body_bb ∷ end_bb ∷ []

loop_code-valid : valid false loop_code ≡ true
unfolding valid lower translate_value_aa
loop_code-valid = refl

loop_size : size loop_code ≡ 6
unfolding size lowered lower translate_value_aa
loop_size = refl

emit_chunk-Lands_example :
    (chunk : Chunk) × (emit_chunk loop_graph (holding [] [] [] (pos 0) [])
      ≡ done
          (true, record (holding [] [] [] (pos 0) []) { result_chunks = ([] ∷ []) ++ chunk ∷ [] }))
    × (chunk ≡ layout (pos 0) 0 loop_code)
    × (length chunk ≡ size loop_code)
    × Lands (length chunk) chunk
unfolding order get_bb
emit_chunk-Lands_example =
    emit_chunk-Lands loop_code loop_graph loop_graph (holding [] [] [] (pos 0) []) refl refl
      loop_code-valid (omega (arith, loop_size)) (omega (arith, loop_size))

emit_step-Reads_example :
    (i : Instruction) × (emit_step (tac_binary sum) (holding [] [] [] (pos 0) [])
      ≡ done (true, holding [] [] [] (pos 0) ([] ++ i ∷ [])))
    × (binary_opcode Op.add ≡ some i.op)
    × Reads machine engine sum i
unfolding lower translate_value_aa
emit_step-Reads_example = emit_step-Reads machine engine sum [] [] [] (pos 0) [] refl

-- Two blocks that lead to one another.
abbrev ring : Cfg
ring =
    record { steps = less ∷ []; truthy_id = pos 1; falsy_id = dud_bb_id }
    ∷ record { steps = []; truthy_id = pos 0; falsy_id = pos 1 }
    ∷ []

abbrev ring_ir : FullIr
ring_ir = record { cfg_list = ring ∷ []; constants = []; pre_objects = []; main_id = pos 0 }

emit-Ends_example : emit ring_ir ≢ fault no_fuel
emit-Ends_example = emit-Ends ring_ir

abbrev arg_reg : PseudoArg
arg_reg = record { value = pos 4; tag = ArgMode.reg }

abbrev arg_constant : PseudoArg
arg_constant = record { value = negsuc 0; tag = ArgMode.constant }

encode-decodes_example :
    ((instruct_arity (encode_one arg_reg) ≡ 1) × (mode_0 (encode_one arg_reg) ≡ ArgMode.reg))
    × ((instruct_arity (encode_two arg_reg arg_constant) ≡ 2)
        × (mode_0 (encode_two arg_reg arg_constant) ≡ ArgMode.reg)
        × (mode_1 (encode_two arg_reg arg_constant) ≡ ArgMode.constant))
    × ((instruct_arity (encode_three arg_reg arg_constant arg_reg) ≡ 3)
        × (mode_0 (encode_three arg_reg arg_constant arg_reg) ≡ ArgMode.reg)
        × (mode_1 (encode_three arg_reg arg_constant arg_reg) ≡ ArgMode.constant)
        × (mode_2 (encode_three arg_reg arg_constant arg_reg) ≡ ArgMode.reg))
encode-decodes_example = encode-decodes arg_reg arg_constant arg_reg

-- A machine whose only chunk is one instruction and the loop.
abbrev looping : Machine
looping = record machine {
  program = record {
    constants = [];
    pre_objects = [];
    chunks =
        ((bare_nop ∷ [])
          ++ (layout (pos 0) (length (bare_nop ∷ []))
                (loop (straight less) (temp_aa (pos 2)) (straight (tac_binary sum)))
              ++ []))
        ∷ [];
    entry_id = some (pos 0);
  };
}

-- The condition is `true`, so the machine enters the body.
loop-Repeats_example :
    (step looping (record engine {
      rip =
          pos
            (length (bare_nop ∷ []) + size (straight less) + size (straight (tac_binary sum)) + 2);
    })
      ≡ done (record engine { rip = pos (length (bare_nop ∷ [])) }))
    × (step looping
          (record engine { rip = pos (length (bare_nop ∷ []) + size (straight less) + 1) })
        ≡ done (record engine { rip = pos (length (bare_nop ∷ []) + size (straight less) + 2) }))
unfolding read_reg ◌+ℤ◌ truthy
loop-Repeats_example =
    loop-Repeats looping engine (straight less) (temp_aa (pos 2)) (straight (tac_binary sum))
      (pos 0) (bare_nop ∷ []) [] (boolean true) refl (omega (arith, loop_size)) refl

abbrev lone_block : BasicBlock
lone_block = record { steps = less ∷ []; truthy_id = pos 1; falsy_id = dud_bb_id }

link_bb-Linked_example :
    (g' : Cfg) × (b' : BasicBlock) × (link_bb ring (pos 0) (pos 0) ≡ done (true, g'))
    × (get_bb g' (pos 0) ≡ some b')
    × Linked lone_block (pos 0) b'
    × (get_bb g' (pos 1) ≡ get_bb ring (pos 1))
    × (length g' ≡ 2)
unfolding get_bb
link_bb-Linked_example = link_bb-Linked ring 0 (pos 0) (pos 1) lone_block refl (λ e. cc)
