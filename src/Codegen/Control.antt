-- ===== src/Codegen/Control.antt =====
-- How the machine of src/runtime/vm.cpp goes through the bytecode of a loop.
use minuet_lang_mirror.Base.{
  ℕ, ℤ, pos, ◌+◌, ◌≤◌, ◌≡◌, refl, sym, ap, ◌∙◌, [], ◌∷◌, ◌++◌, length, length-append, done, read_at,
  arith, wrap16, wrap16_fits, if◌then◌else◌, Bool-cases, inl, inr, ◌+ℤ◌,
}
use mathlib.Core.List.{append_assoc}
use minuet_lang_mirror.Ir.Steps.{AbsAddress}
use minuet_lang_mirror.Runtime.Values.{FastValue}
use minuet_lang_mirror.Runtime.FastValue.{truthy}
use minuet_lang_mirror.Runtime.Bytecode.{Instruction, Chunk}
use minuet_lang_mirror.Runtime.Vm.Engine.{Machine, Engine, read_reg, next_ip}
use minuet_lang_mirror.Runtime.Vm.Control.{handle_jmp_else}
use minuet_lang_mirror.Runtime.Vm.Dispatch.{step, execute}
use minuet_lang_mirror.Codegen.Emitter.Patching.{bare_nop}
use minuet_lang_mirror.Codegen.Layout.{Code, loop, layout, size, check_to, jump_to}
use minuet_lang_mirror.Codegen.Layout.Patches.{length-layout, get_elem?-middle}

-- The instruction behind `xs` is `i`.
step_at :
    (m : Machine) (e : Engine) (xs : Chunk) (i : Instruction) (ys : Chunk) (ip : ℕ)
    → read_at m.program.chunks e.rfi ≡ done (xs ++ i ∷ ys)
    → ip ≡ length xs
    → step m (record e { rip = pos ip }) ≡ execute m (record e { rip = pos ip }) i.op i
unfolding step
step_at m e xs i ys ip there h = rw (there, h) (rw (get_elem?-middle xs i ys) refl)

-- `handle_jmp_else` goes on where the register is truthy, and to its target where it is not.
handle_jmp_else-run :
    (m : Machine) (e : Engine) (check_reg dest_ip : ℤ) (v : FastValue)
    → read_reg e check_reg ≡ done v
    → handle_jmp_else m e check_reg dest_ip
      ≡ done (if truthy m.doubles v then next_ip e else record e { rip = dest_ip })
unfolding handle_jmp_else
handle_jmp_else-run m e check_reg dest_ip v reads = elim (Bool-cases (truthy m.doubles v)) [
  | inl t ↦ rw (reads, t) refl
  | inr f ↦ rw (reads, f) refl
]

pos_next : (n : ℕ) → pos (n + 1) +ℤ pos 1 ≡ pos (n + 2)
unfolding ◌+ℤ◌
pos_next n = ground arith

-- The instruction behind the check.
chosen :
    (m : Machine) (e : Engine) (base n : ℕ) (end : ℤ) (v : FastValue)
    → base + n + 2 ≤ 32767
    → (if truthy m.doubles v
        then next_ip (record e { rip = pos (base + n + 1) })
        else record e { rip = end })
      ≡ record e { rip = if truthy m.doubles v then pos (base + n + 2) else end }
chosen m e base n end v small = elim (Bool-cases (truthy m.doubles v)) [
  | inl t ↦ rw t (
      ap (λ z. record e { rip = z })
        (ap wrap16 (pos_next (base + n)) ∙ wrap16_fits (base + n + 2) (omega arith)))
  | inr f ↦ rw f refl
]

-- A machine runs a chunk that holds the bytecode of a loop somewhere, with targets that fit 16 bits, and `v` is in the register of the loop's condition. From the jump behind the body, one step leads to the first instruction of the loop, so the check is made again. At the check, one step leads to the first instruction of the body if `v` is truthy, and to the last instruction of the loop, behind the jump, otherwise. The rest of the machine is the same.
pub loop-Repeats :
    (m : Machine) (e : Engine) (check : Code) (condition : AbsAddress) (body : Code) (t : ℤ)
    (pre post : Chunk) (v : FastValue)
    → read_at m.program.chunks e.rfi
      ≡ done (pre ++ (layout t (length pre) (loop check condition body) ++ post))
    → length pre + size (loop check condition body) ≤ 32768
    → read_reg e condition.id ≡ done v
    → (step m (record e { rip = pos (length pre + size check + size body + 2) })
        ≡ done (record e { rip = pos (length pre) }))
      × (step m (record e { rip = pos (length pre + size check + 1) })
          ≡ done (record e {
            rip =
                if truthy m.doubles v
                then pos (length pre + size check + 2)
                else pos (length pre + size check + size body + 3);
          }))
unfolding execute layout size jump_to check_to read_reg
loop-Repeats m e check condition body t pre post v there small reads =
    let base = length pre in
    let end = pos (base + size check + size body + 3) in
    let first = layout (pos 0) (base + 1) check in
    let second = layout end (base + size check + 2) body in
    let front = (pre ++ bare_nop ∷ []) ++ first in
    let through = (front ++ check_to condition end ∷ []) ++ second in
    let size_front : length front ≡ base + size check + 1 = omega (
      arith,
      length-append pre (bare_nop ∷ []),
      length-append (pre ++ bare_nop ∷ []) first,
      length-layout check (pos 0) (base + 1),
    ) in
    let size_through : length through ≡ base + size check + size body + 2 = omega (
      arith,
      length-append front (check_to condition end ∷ []),
      length-append (front ++ check_to condition end ∷ []) second,
      length-layout body end (base + size check + 2),
    ) in
    let whole : Chunk = pre ++ (layout t base (loop check condition body) ++ post) in
    let by_jump : whole ≡ through ++ jump_to (pos base) ∷ (bare_nop ∷ post) =
      simp append_assoc refl in
    let by_check : whole
        ≡ front ++ check_to condition end ∷ (second ++ jump_to (pos base) ∷ bare_nop ∷ post) =
      simp append_assoc refl in
    (
      step_at m e through (jump_to (pos base)) (bare_nop ∷ post) (base + size check + size body + 2)
            (there ∙ ap done by_jump) (sym size_through)
          ∙ ap (λ z. done (record e { rip = z })) (wrap16_fits base (omega arith)),
      step_at m e front (check_to condition end) (second ++ jump_to (pos base) ∷ bare_nop ∷ post)
            (base + size check + 1) (there ∙ ap done by_check) (sym size_front)
          ∙ ap
              (λ z.
                handle_jmp_else m (record e { rip = pos (base + size check + 1) }) condition.id z)
              (wrap16_fits (base + size check + size body + 3) (omega arith))
          ∙ handle_jmp_else-run m (record e { rip = pos (base + size check + 1) }) condition.id end
              v reads
          ∙ ap done (chosen m e base (size check) end v (omega arith)),
    )
