-- ===== src/Codegen/Layout/Pieces.antt =====
-- Straight steps, conditions, sequences and breaks of structured code, as the emitter takes them.
use minuet_lang_mirror.Base.{
  ℕ, ℤ, pos, ◌+◌, ◌≡◌, refl, sym, Bool, true, false, ◌&&◌, none, List, [], ◌∷◌, ◌++◌, length,
  length-append, done, arith, Option-cases, inl, inr,
}
use mathlib.Core.List.{append_assoc, append-nil}
use minuet_lang_mirror.Ir.Steps.{Op, AbsAddress, AbsAddrTag, Step}
use minuet_lang_mirror.Runtime.Bytecode.{Instruction, Chunk, Opcode}
use minuet_lang_mirror.Codegen.Emitter.Metadata.{mode_of, translate_value_aa}
use minuet_lang_mirror.Codegen.Emitter.Plain.{instruct_two}
use minuet_lang_mirror.Codegen.Emitter.Patching.{bare_nop}
use minuet_lang_mirror.Codegen.Emitter.State.{ActiveIfElse, ActiveLoop, Emitter}
use minuet_lang_mirror.Codegen.Emitter.Blocks.{emit_step}
use minuet_lang_mirror.Codegen.Layout.{
  Code, skip, leave, straight, seq, loop, branch, branch_else, layout, breaks, size, valid, lower,
  jump_to, steps_of, marked, jump_step, check_step, arg_of, zero_aa, is_some, lowered,
}
use minuet_lang_mirror.Codegen.Layout.Steps.{
  holding, Emits, finished, next, append-Emits, emit_step-lower,
}
use minuet_lang_mirror.Codegen.Layout.Marks.{mark_break-holding}
use minuet_lang_mirror.Codegen.Layout.Noting.{note, room, room-note, note-nil, note-note}
use minuet_lang_mirror.Codegen.Layout.Patches.{length-layout}

pub both_true : (a b : Bool) → (a && b) ≡ true → (a ≡ true) × (b ≡ true)
both_true true b h = (refl, h)
both_true false b h = absurd (cc)

-- Code that is valid outside of loops leaves none.
pub breaks-closed : (k : Code) (base : ℕ) → valid false k ≡ true → breaks base k ≡ []
unfolding valid breaks
breaks-closed skip base h = refl
breaks-closed leave base h = absurd (cc)
breaks-closed (straight s) base h = refl
breaks-closed (seq a b) base h =
    let (ha, hb) = both_true (valid false a) (valid false b) h in
    rw (breaks-closed a base ha, breaks-closed b (base + size a) hb) refl
breaks-closed (loop check condition body) base h = refl
breaks-closed (branch check condition body) base h =
    let (front, hb) = both_true _ (valid false body) h in
    breaks-closed body (base + size check + 1) hb
breaks-closed (branch_else check condition body other) base h =
    let (front, ho) = both_true _ (valid false other) h in
    let (front', hb) = both_true _ (valid false body) front in
    rw
      (
        breaks-closed body (base + size check + 1) hb,
        breaks-closed other (base + size check + size body + 2 + 1) ho,
      )
      refl

-- The instruction of a check before it is patched.
abbrev pub blank_check : AbsAddress → Instruction
blank_check condition = instruct_two Opcode.jump_else (arg_of condition) (arg_of zero_aa)

module _ (before : List Chunk) (id : ℤ) where
  pub jump_emitted :
      (ifs : List ActiveIfElse) (loops : List ActiveLoop) (c : Chunk)
      → emit_step jump_step (holding before ifs loops id c)
        ≡ done (true, holding before ifs loops id (c ++ jump_to (pos 0) ∷ []))
  unfolding lower jump_to
  jump_emitted ifs loops c = emit_step-lower before ifs loops id c jump_step

  pub nop_emitted :
      (ifs : List ActiveIfElse) (loops : List ActiveLoop) (c : Chunk)
      → emit_step (marked Op.nop) (holding before ifs loops id c)
        ≡ done (true, holding before ifs loops id (c ++ bare_nop ∷ []))
  unfolding lower
  nop_emitted ifs loops c = emit_step-lower before ifs loops id c (marked Op.nop)

  tagged_check_emitted :
      (ifs : List ActiveIfElse) (loops : List ActiveLoop) (c : Chunk) (tag : AbsAddrTag) (value : ℤ)
      → is_some (mode_of tag) ≡ true
      → let condition : AbsAddress = record { tag = tag; id = value } in
        emit_step (check_step condition) (holding before ifs loops id c)
        ≡ done (true, holding before ifs loops id (c ++ blank_check condition ∷ []))
  unfolding lower translate_value_aa
  tagged_check_emitted ifs loops c AbsAddrTag.immediate value h =
      emit_step-lower before ifs loops id c
        (check_step (record { tag = AbsAddrTag.immediate; id = value }))
  tagged_check_emitted ifs loops c AbsAddrTag.constant value h =
      emit_step-lower before ifs loops id c
        (check_step (record { tag = AbsAddrTag.constant; id = value }))
  tagged_check_emitted ifs loops c AbsAddrTag.temp value h =
      emit_step-lower before ifs loops id c
        (check_step (record { tag = AbsAddrTag.temp; id = value }))
  tagged_check_emitted ifs loops c AbsAddrTag.heap value h =
      emit_step-lower before ifs loops id c
        (check_step (record { tag = AbsAddrTag.heap; id = value }))
  tagged_check_emitted ifs loops c AbsAddrTag.last value h = absurd (cc)

  pub check_emitted :
      (ifs : List ActiveIfElse) (loops : List ActiveLoop) (c : Chunk) (condition : AbsAddress)
      → is_some (mode_of condition.tag) ≡ true
      → emit_step (check_step condition) (holding before ifs loops id c)
        ≡ done (true, holding before ifs loops id (c ++ blank_check condition ∷ []))
  check_emitted ifs loops c condition h =
      tagged_check_emitted ifs loops c condition.tag condition.id h

  pub land :
      {ss : List Step} {e : Emitter} (ifs : List ActiveIfElse) (loops loops' : List ActiveLoop)
      (c c' : Chunk)
      → loops ≡ loops'
      → c ≡ c'
      → Emits ss e (holding before ifs loops id c)
      → Emits ss e (holding before ifs loops' id c')
  land ifs loops loops' c c' h1 h2 p = rw (← h1, ← h2) p

  pub straight_emitted :
      (ifs : List ActiveIfElse) (loops : List ActiveLoop) (c : Chunk) (s : Step)
      → is_some (lower s) ≡ true
      → Emits
          (s ∷ [])
          (holding before ifs loops id c)
          (holding before ifs loops id (c ++ lowered s))
  unfolding lowered
  straight_emitted ifs loops c s h = elim (Option-cases (lower s)) [
    | inl none_lower ↦
        (let bad : is_some {A = List Instruction} none ≡ true = rw none_lower at h in absurd (cc))
    | inr (code, found) ↦
        next (rw (lowered, found) (rw found at (emit_step-lower before ifs loops id c s))) finished
  ]

  abbrev pub Emitted : Code → Type 0
  Emitted k =
      (inside : Bool) (ifs : List ActiveIfElse) (loops : List ActiveLoop) (c : Chunk) (base : ℕ)
      → base ≡ length c
      → valid inside k ≡ true
      → room inside loops ≡ true
      → Emits (steps_of k) (holding before ifs loops id c)
          (holding before ifs (note loops (breaks base k)) id (c ++ layout (pos 0) base k))

  -- A check, which leaves no breaks.
  pub condition_emitted :
      (k : Code)
      → Emitted k
      → (ifs : List ActiveIfElse) (loops : List ActiveLoop) (c : Chunk) (base : ℕ) → base ≡ length c
      → valid false k ≡ true
      → Emits
          (steps_of k)
          (holding before ifs loops id c)
          (holding before ifs loops id (c ++ layout (pos 0) base k))
  condition_emitted k hk ifs loops c base e h =
      land ifs (note loops (breaks base k)) loops (c ++ layout (pos 0) base k)
        (c ++ layout (pos 0) base k) (rw (breaks-closed k base h) (note-nil loops)) refl
        (hk false ifs loops c base e h refl)

  pub seq-Emitted : (a b : Code) → Emitted a → Emitted b → Emitted (seq a b)
  unfolding valid breaks layout
  seq-Emitted a b ha hb inside ifs loops c base e h r =
      let (va, vb) = both_true (valid inside a) (valid inside b) h in
      let first = layout (pos 0) base a in
      let second = layout (pos 0) (base + size a) b in
      land ifs (note (note loops (breaks base a)) (breaks (base + size a) b))
        (note loops (breaks base a ++ breaks (base + size a) b)) ((c ++ first) ++ second)
        (c ++ (first ++ second)) (note-note loops (breaks base a) (breaks (base + size a) b))
        (append_assoc c first second)
        (append-Emits (ha inside ifs loops c base e va r) (
          hb inside ifs (note loops (breaks base a)) (c ++ first) (base + size a)
            (omega (arith, length-append c first, length-layout a (pos 0) base)) vb
            (room-note inside loops (breaks base a) r)))

  pub leave-Emitted : Emitted leave
  unfolding valid breaks layout
  leave-Emitted true ifs loops c base e h r = rw e (
      next (jump_emitted ifs loops c)
        (next (mark_break-holding before id ifs loops c (jump_to (pos 0)) r) finished))
  leave-Emitted false ifs loops c base e h r = absurd (cc)

  pub skip-Emitted : Emitted skip
  unfolding breaks layout
  skip-Emitted inside ifs loops c base e h r =
      land ifs loops (note loops []) c (c ++ []) (sym (note-nil loops)) (sym (append-nil c))
        finished

  pub single-Emitted : (s : Step) → Emitted (straight s)
  unfolding valid breaks layout
  single-Emitted s inside ifs loops c base e h r =
      let (lowers, flat) = both_true (is_some (lower s)) _ h in
      land ifs loops (note loops []) (c ++ lowered s) (c ++ lowered s) (sym (note-nil loops)) refl
        (straight_emitted ifs loops c s lowers)
