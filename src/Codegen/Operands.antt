-- ===== src/Codegen/Operands.antt =====
-- The operands that the machine fetches for an emitted instruction are those of its step.
use minuet_lang_mirror.Base.{
  ℤ, ◌≡◌, refl, true, Option, none, some, List, [], ◌∷◌, ◌++◌, Run, done, ◌>>=◌, read_at,
}
use minuet_lang_mirror.Ir.Steps.{AbsAddress, AbsAddrTag, TacBinary, tac_binary}
use minuet_lang_mirror.Runtime.Values.{FastValue}
use minuet_lang_mirror.Runtime.Bytecode.{Instruction, Opcode, Chunk, Program, ArgMode}
use minuet_lang_mirror.Runtime.Vm.Engine.{Machine, Engine, read_reg, fetch_value}
use minuet_lang_mirror.Runtime.Vm.Arithmetic.{fetch_pair}
use minuet_lang_mirror.Codegen.Emitter.Metadata.{PseudoArg, mode_of, with_mode, translate_value_aa}
use minuet_lang_mirror.Codegen.Emitter.State.{ActiveIfElse, ActiveLoop}
use minuet_lang_mirror.Codegen.Emitter.Plain.{instruct_three, binary_opcode}
use minuet_lang_mirror.Codegen.Emitter.Blocks.{emit_step}
use minuet_lang_mirror.Codegen.Decoding.{mode_1-encode_three, mode_2-encode_three}
use minuet_lang_mirror.Codegen.Layout.{is_some, lower, lower_three}
use minuet_lang_mirror.Codegen.Layout.Steps.{holding, emit_step-lower}

-- What an address of the intermediate code means to a running machine: a constant of the pool, a
-- register of the current frame, and nothing for an immediate or a preloaded object.
abbrev pub operand : Program → Engine → AbsAddrTag → ℤ → Run (Option FastValue)
operand p e AbsAddrTag.constant id = read_at p.constants id >>= λ v. done (some v)
operand p e AbsAddrTag.temp id = read_reg e id >>= λ v. done (some v)
operand p e tag id = done none

abbrev pub operands :
    Program → Engine → AbsAddress → AbsAddress → Run (Option FastValue × Option FastValue)
operands p e a b = do lhs ← operand p e a.tag a.id; rhs ← operand p e b.tag b.id; done (lhs, rhs)

operand-fetch :
    (p : Program) (e : Engine) (tag : AbsAddrTag) (id : ℤ) (mode : ArgMode)
    → mode_of tag ≡ some mode
    → fetch_value p e mode id ≡ operand p e tag id
unfolding fetch_value
operand-fetch p e AbsAddrTag.immediate id ArgMode.immediate h = refl
operand-fetch p e AbsAddrTag.constant id ArgMode.constant h = refl
operand-fetch p e AbsAddrTag.temp id ArgMode.reg h = refl
operand-fetch p e AbsAddrTag.heap id ArgMode.heap h = refl
operand-fetch p e tag id mode h = absurd (cc)

module _ (m : Machine) (e : Engine) (s : TacBinary) where
  -- The instruction writes where the step does and reads what the step reads.
  abbrev pub Reads : Instruction → Type 0
  Reads i =
      (i.arg_0 ≡ s.dest.id)
      × (fetch_pair m e i.metadata i.arg_1 i.arg_2 ≡ operands m.program e s.arg_0 s.arg_1)

  reads :
      (oc : Opcode) (md m0 m1 : ArgMode)
      → mode_of s.arg_0.tag ≡ some m0
      → mode_of s.arg_1.tag ≡ some m1
      → Reads (
          instruct_three oc
            (record { value = s.dest.id; tag = md })
            (record { value = s.arg_0.id; tag = m0 })
            (record { value = s.arg_1.id; tag = m1 }))
  unfolding fetch_pair
  reads oc md m0 m1 h0 h1 =
      let d : PseudoArg = record { value = s.dest.id; tag = md } in
      let a : PseudoArg = record { value = s.arg_0.id; tag = m0 } in
      let b : PseudoArg = record { value = s.arg_1.id; tag = m1 } in
      (
        refl,
        rw
            (
              mode_1-encode_three d a b,
              mode_2-encode_three d a b,
              operand-fetch m.program e s.arg_0.tag s.arg_0.id m0 h0,
              operand-fetch m.program e s.arg_1.tag s.arg_1.id m1 h1,
            )
            refl,
      )

  lowered-Reads :
      (oc : Option Opcode) (md m0 m1 : Option ArgMode)
      → mode_of s.arg_0.tag ≡ m0
      → mode_of s.arg_1.tag ≡ m1
      → is_some (
          lower_three oc
            (with_mode s.dest.id md)
            (with_mode s.arg_0.id m0)
            (with_mode s.arg_1.id m1))
        ≡ true
      → (i : Instruction) × (lower_three oc
            (with_mode s.dest.id md)
            (with_mode s.arg_0.id m0)
            (with_mode s.arg_1.id m1)
          ≡ some (i ∷ []))
        × (oc ≡ some i.op)
        × Reads i
  lowered-Reads (some oc) (some md) (some m0) (some m1) h0 h1 h = (
    instruct_three oc (record { value = s.dest.id; tag = md })
        (record { value = s.arg_0.id; tag = m0 }) (record { value = s.arg_1.id; tag = m1 }),
    refl,
    refl,
    reads oc md m0 m1 h0 h1,
  )
  lowered-Reads none md m0 m1 h0 h1 h = absurd (cc)
  lowered-Reads (some oc) none m0 m1 h0 h1 h = absurd (cc)
  lowered-Reads (some oc) (some md) none m1 h0 h1 h = absurd (cc)
  lowered-Reads (some oc) (some md) (some m0) none h0 h1 h = absurd (cc)

-- A binary step that can be lowered appends one instruction to the newest chunk. Its opcode is the one of the step's operation, its destination is the step's, and a machine in any state fetches for it the operands that the addresses of the step name: entries of the constant pool, registers of the current frame, and nothing for immediates and preloaded objects.
pub emit_step-Reads :
    (m : Machine) (e : Engine) (s : TacBinary) (before : List Chunk) (ifs : List ActiveIfElse)
    (loops : List ActiveLoop) (next_id : ℤ) (c : Chunk)
    → is_some (lower (tac_binary s)) ≡ true
    → (i : Instruction) × (emit_step (tac_binary s) (holding before ifs loops next_id c)
        ≡ done (true, holding before ifs loops next_id (c ++ i ∷ [])))
      × (binary_opcode s.op ≡ some i.op)
      × Reads m e s i
unfolding lower translate_value_aa
emit_step-Reads m e s before ifs loops next_id c h =
    let (i, lowers, op, same) =
      lowered-Reads m e s (binary_opcode s.op) (mode_of s.dest.tag) (mode_of s.arg_0.tag)
        (mode_of s.arg_1.tag) refl refl h in
    (i, rw lowers at (emit_step-lower before ifs loops next_id c (tac_binary s)), op, same)
