-- ===== src/Codegen/Layout/Targets.antt =====
-- Every jump of laid out code leads to an instruction of its chunk.
use minuet_lang_mirror.Base.{
  ℕ, pos, ◌+◌, ◌<◌, ◌≤◌, ◌≡◌, refl, ◌∙◌, Bool, true, false, not, List, [], ◌∷◌, ◌++◌, length, arith,
  wrap16, wrap16_fits, done, some,
}
use minuet_lang_mirror.Ir.Steps.{Step, AbsAddress}
use minuet_lang_mirror.Runtime.Bytecode.{Chunk}
use minuet_lang_mirror.Codegen.Layout.{
  Code, skip, leave, straight, seq, loop, branch, branch_else, layout, size, valid, lowered, jumps,
  jump_to, check_to, steps_of,
}
use minuet_lang_mirror.Codegen.Layout.Pieces.{both_true}
use minuet_lang_mirror.Codegen.Layout.Patches.{length-layout}
use minuet_lang_mirror.Codegen.Layout.Emission.{emit_bb-layout}
use minuet_lang_mirror.Codegen.Emitter.Patching.{bare_nop}
use minuet_lang_mirror.Codegen.Emitter.State.{Emitter}
use minuet_lang_mirror.Codegen.Emitter.Blocks.{emit_bb, emit_chunk, walk_fuel}
use minuet_lang_mirror.Ir.Graph.{BasicBlock, Cfg, dud_bb_id}
use minuet_lang_mirror.Codegen.Layout.Ordering.{flat, order, walk-order}
use minuet_lang_mirror.Codegen.Layout.Landing.{Within, Lands, Lands-append, lower-Lands}

not-true : (b : Bool) → not b ≡ true → b ≡ false
not-true false h = refl
not-true true h = absurd (cc)

module _ (n : ℕ) (small : n ≤ 32768) where
  within : (t : ℕ) → t < n → Within n (wrap16 (pos t))
  within t h = (t, wrap16_fits t (omega arith), h)

  lowered-Lands : (s : Step) → jumps s ≡ false → Lands n (lowered s)
  unfolding lowered
  lowered-Lands s h = lower-Lands n s h

  check-Lands :
      (condition : AbsAddress) (t : ℕ) (rest : Chunk)
      → t < n
      → Lands n rest
      → Lands n (check_to condition (pos t) ∷ rest)
  unfolding check_to
  check-Lands condition t rest h p = (within t h, p)

  jump-Lands : (t : ℕ) (rest : Chunk) → t < n → Lands n rest → Lands n (jump_to (pos t) ∷ rest)
  unfolding jump_to
  jump-Lands t rest h p = (within t h, p)

  layout-Lands :
      (k : Code) (inside : Bool) (t base : ℕ)
      → valid inside k ≡ true
      → base + size k ≤ n
      → 0 < n
      → (inside ≡ true → t < n)
      → Lands n (layout (pos t) base k)
  unfolding valid layout size
  layout-Lands skip inside t base h fits some_n target = tt
  layout-Lands leave inside t base h fits some_n target = jump-Lands t [] (target h) tt
  layout-Lands (straight s) inside t base h fits some_n target =
      let (lowers, flat) = both_true _ (not (jumps s)) h in
      lowered-Lands s (not-true (jumps s) flat)
  layout-Lands (seq a b) inside t base h fits some_n target =
      let (ha, hb) = both_true (valid inside a) (valid inside b) h in
      Lands-append n (layout (pos t) base a) (layout (pos t) (base + size a) b)
        (layout-Lands a inside t base ha (omega arith) some_n target)
        (layout-Lands b inside t (base + size a) hb (omega arith) some_n target)
  layout-Lands (loop check condition body) inside t base h fits some_n target =
      let (front, hb) = both_true _ (valid true body) h in
      let (hc, named) = both_true (valid false check) _ front in
      let end = base + size check + size body + 3 in
      let first = layout (pos 0) (base + 1) check in
      let second = layout (pos end) (base + size check + 2) body in
      (
        tt,
        Lands-append n (first ++ check_to condition (pos end) ∷ second)
            (jump_to (pos base) ∷ bare_nop ∷ [])
            (Lands-append n first (check_to condition (pos end) ∷ second)
              (layout-Lands check false 0 (base + 1) hc (omega arith) some_n (λ e. some_n))
              (check-Lands condition end second (omega arith) (
                layout-Lands body true end (base + size check + 2) hb (omega arith) some_n
                  (λ e. omega arith))))
            (jump-Lands base (bare_nop ∷ []) (omega arith) (tt, tt)),
      )
  layout-Lands (branch check condition body) inside t base h fits some_n target =
      let (front, hb) = both_true _ (valid inside body) h in
      let (hc, named) = both_true (valid false check) _ front in
      let end = base + size check + size body + 1 in
      let first = layout (pos 0) base check in
      let second = layout (pos t) (base + size check + 1) body in
      Lands-append n (first ++ check_to condition (pos end) ∷ second) (bare_nop ∷ [])
        (Lands-append n first (check_to condition (pos end) ∷ second)
          (layout-Lands check false 0 base hc (omega arith) some_n (λ e. some_n))
          (check-Lands condition end second (omega arith)
            (layout-Lands body inside t (base + size check + 1) hb (omega arith) some_n target)))
        (tt, tt)
  layout-Lands (branch_else check condition body other) inside t base h fits some_n target =
      let (most, ho) = both_true _ (valid inside other) h in
      let (front, hb) = both_true _ (valid inside body) most in
      let (hc, named) = both_true (valid false check) _ front in
      let alternative = base + size check + size body + 2 in
      let end = alternative + size other + 1 in
      let first = layout (pos 0) base check in
      let second = layout (pos t) (base + size check + 1) body in
      let third = layout (pos t) (alternative + 1) other in
      let checked = check_to condition (pos alternative) ∷ second in
      Lands-append n (first ++ checked ++ jump_to (pos end) ∷ bare_nop ∷ third) (bare_nop ∷ [])
        (Lands-append n (first ++ checked) (jump_to (pos end) ∷ bare_nop ∷ third)
          (Lands-append n first checked
            (layout-Lands check false 0 base hc (omega arith) some_n (λ e. some_n))
            (check-Lands condition alternative second (omega arith)
              (layout-Lands body inside t (base + size check + 1) hb (omega arith) some_n target)))
          (jump-Lands end (bare_nop ∷ third) (omega arith)
            (tt, layout-Lands other inside t (alternative + 1) ho (omega arith) some_n target)))
        (tt, tt)

-- Where the blocks of a graph, in the order of a depth-first walk with the truthy child first, hold together the steps of structured code, `emit_chunk` adds one chunk, the layout of that code. It has one instruction for each place of the layout, and every jump in it, conditional or not, holds the index of an instruction of that chunk. The code may be spread over the blocks in any way; it is not empty, has no break outside of a loop, and fits the 16 bits of a target.
pub emit_chunk-Lands :
    (k : Code) (g : Cfg) (bbs : List BasicBlock) (e : Emitter)
    → order g (walk_fuel g) [] (pos 0 ∷ []) ≡ some bbs
    → flat bbs ≡ steps_of k
    → valid false k ≡ true
    → 0 < size k
    → size k ≤ 32768
    → (chunk : Chunk) × (emit_chunk g e
        ≡ done (true, record e { result_chunks = e.result_chunks ++ chunk ∷ [] }))
      × (chunk ≡ layout (pos 0) 0 k)
      × (length chunk ≡ size k)
      × Lands (length chunk) chunk
unfolding emit_chunk emit_bb
emit_chunk-Lands k g bbs e ordered same h some_code small =
    let count = length-layout k (pos 0) 0 in
    let whole : BasicBlock = record {
      steps = flat bbs;
      truthy_id = dud_bb_id;
      falsy_id = dud_bb_id;
    } in
    (
      layout (pos 0) 0 k,
      walk-order g (walk_fuel g) [] (pos 0 ∷ []) bbs _ ordered
          ∙ emit_bb-layout k whole e.result_chunks e.active_ifs e.active_loops e.next_fun_id [] same
              h,
      refl,
      count,
      rw count
          (layout-Lands (size k) small k false 0 0 h (omega arith) some_code (λ e. absurd (cc))),
    )
