-- ===== src/Codegen/Walking.antt =====
-- The walk over a graph ends: every block is entered once at most.
use minuet_lang_mirror.Base.{
  ℕ, ℤ, pos, negsuc, zero, suc, ◌+◌, ◌*◌, ◌<◌, ◌≤◌, ◌≡◌, ◌≢◌, refl, Bool, true, false, ◌||◌, some,
  List, [], ◌∷◌, length, lt_of_get_elem?, fault, no_fuel, arith, eq_ℤ, ltb, ltb→lt, if◌then◌else◌,
  Bool-cases, Option-cases, inl, inr,
}
use minuet_lang_mirror.Ir.Graph.{BasicBlock, Cfg, FullIr, get_bb}
use minuet_lang_mirror.Codegen.Emitter.State.{Emitter, fresh_emitter}
use minuet_lang_mirror.Codegen.Emitter.Blocks.{
  contains, push_child, push_children, walk, walk_fuel, emit_chunk, emit_chunks, emit,
}
use minuet_lang_mirror.Codegen.Fuel.{
  Fueled, returned, Fueled-ne, bind_Fueled, if_Fueled, emit_bb-Fueled,
}

-- How many of the first `n` blocks are not visited.
abbrev unvisited : ℕ → List ℤ → ℕ
unvisited zero visited = 0
unvisited (suc n) visited = unvisited n visited + (if contains visited (pos n) then 0 else 1)

fewer : (a b : Bool) → (if a || b then 0 else 1) ≤ (if b then 0 else 1)
fewer true true = omega arith
fewer true false = omega arith
fewer false b = omega arith

unvisited-le : (n : ℕ) (i : ℤ) (visited : List ℤ) → unvisited n (i ∷ visited) ≤ unvisited n visited
unvisited-le zero i visited = omega arith
unvisited-le (suc n) i visited =
    omega (arith, unvisited-le n i visited, fewer (eq_ℤ i (pos n)) (contains visited (pos n)))

-- A block that was not visited is one of them.
unvisited-visit :
    (n i : ℕ) (visited : List ℤ)
    → i < n
    → contains visited (pos i) ≡ false
    → unvisited n (pos i ∷ visited) + 1 ≤ unvisited n visited
unvisited-visit zero i visited h new = absurd (omega arith)
unvisited-visit (suc n) i visited h new = elim (Bool-cases (ltb i n)) [
  | inl below ↦ omega (
    arith,
    unvisited-visit n i visited (ltb→lt i n below) new,
    fewer (eq_ℤ (pos i) (pos n)) (contains visited (pos n)),
  )
  | inr above ↦
      let same : i ≡ n = ground arith in
      let found : eq_ℤ (pos i) (pos n) ≡ true = ground arith in
      let new' : contains visited (pos n) ≡ false = rw (← same) new in
      rw (found, new') (omega (arith, unvisited-le n (pos i) visited))
]

unvisited-nil : (n : ℕ) → unvisited n [] ≡ n
unvisited-nil zero = refl
unvisited-nil (suc n) = omega (arith, unvisited-nil n)

length-push_child :
    (id : ℤ) (frontier : List ℤ) → length (push_child id frontier) ≤ length frontier + 1
length-push_child id frontier = ground arith

length-push_children :
    (bb : BasicBlock) (frontier : List ℤ) → length (push_children bb frontier) ≤ length frontier + 2
length-push_children bb frontier = omega (
  arith,
  length-push_child bb.truthy_id (push_child bb.falsy_id frontier),
  length-push_child bb.falsy_id frontier,
)

get_bb-lt :
    (g : Cfg) (id : ℤ) (bb : BasicBlock)
    → get_bb g id ≡ some bb
    → (i : ℕ) × (id ≡ pos i) × (i < length g)
unfolding get_bb
get_bb-lt g (pos i) bb h = (i, refl, lt_of_get_elem? g i h)
get_bb-lt g (negsuc i) bb h = absurd (cc)

walk-Fueled :
    (g : Cfg) (fuel : ℕ) (visited frontier : List ℤ) (e : Emitter)
    → 3 * unvisited (length g) visited + length frontier ≤ fuel
    → Fueled (walk g fuel visited frontier e)
unfolding walk
walk-Fueled g fuel visited [] e h = returned
walk-Fueled g zero visited (id ∷ frontier) e h = absurd (omega arith)
walk-Fueled g (suc fuel) visited (id ∷ frontier) e h = elim (Bool-cases (contains visited id)) [
  | inl seen ↦ rw seen (walk-Fueled g fuel visited frontier e (omega arith))
  | inr new ↦ rw new (elim (Option-cases (get_bb g id)) [
    | inl missing ↦ rw missing returned
    | inr (bb, found) ↦
        let (i, same, below) = get_bb-lt g id bb found in
        let new' : contains visited (pos i) ≡ false = rw (← same) new in
        let fewer_left : unvisited (length g) (id ∷ visited) + 1 ≤ unvisited (length g) visited =
          rw same (unvisited-visit (length g) i visited below new') in
        rw found (
          bind_Fueled (emit_bb-Fueled bb e) λ p.
            if_Fueled p.0
              (walk-Fueled g fuel (id ∷ visited) (push_children bb frontier) p.1
                (omega (arith, fewer_left, length-push_children bb frontier)))
              returned)
  ])
]

emit_chunk-Fueled : (g : Cfg) (e : Emitter) → Fueled (emit_chunk g e)
unfolding emit_chunk
emit_chunk-Fueled g e =
    walk-Fueled g (walk_fuel g) [] (pos 0 ∷ []) _ (omega (arith, unvisited-nil (length g)))

emit_chunks-Fueled : (gs : List Cfg) (e : Emitter) → Fueled (emit_chunks gs e)
unfolding emit_chunks
emit_chunks-Fueled [] e = returned
emit_chunks-Fueled (g ∷ gs) e =
    bind_Fueled (emit_chunk-Fueled g e) λ p. if_Fueled p.0 (emit_chunks-Fueled gs p.1) returned

-- For every intermediate code, whatever its links, the walks over its graphs end: the fuel of three rounds for each block and two more is never used up, neither by the loops over the blocks nor by the emission of a block.
pub emit-Ends : (ir : FullIr) → emit ir ≢ fault no_fuel
unfolding emit
emit-Ends ir = Fueled-ne (bind_Fueled (emit_chunks-Fueled ir.cfg_list fresh_emitter) λ p. returned)
