-- ===== src/Codegen/Layout/Ordering.antt =====
-- The order in which the walk over a graph (`emit_chunk` of src/bcgen/emitter.cpp) meets its blocks.
use minuet_lang_mirror.Base.{
  ℕ, ℤ, zero, suc, ◌≡◌, refl, sym, ◌∙◌, Bool, true, false, Option, none, some, List, [], ◌∷◌, ◌++◌,
  Run, done, fault, ◌>>=◌, if◌then◌else◌, Bool-cases, Option-cases, inl, inr,
}
use minuet_lang_mirror.Ir.Steps.{Step}
use minuet_lang_mirror.Ir.Graph.{BasicBlock, Cfg, get_bb}
use minuet_lang_mirror.Codegen.Emitter.State.{Emitter}
use minuet_lang_mirror.Codegen.Emitter.Blocks.{
  emit_step, emit_steps, emit_bb, contains, push_children, walk,
}

-- The steps of the blocks, in the order of the blocks.
abbrev pub flat : List BasicBlock → List Step
flat [] = []
flat (bb ∷ bbs) = bb.steps ++ flat bbs

abbrev pub cons_found : BasicBlock → Option (List BasicBlock) → Option (List BasicBlock)
cons_found bb none = none
cons_found bb (some bbs) = some (bb ∷ bbs)

-- The blocks in the order of a depth-first walk, the truthy child first; none where a link leads
-- out of the graph.
unfoldable pub order : Cfg → ℕ → List ℤ → List ℤ → Option (List BasicBlock)
unfolding get_bb
order g fuel visited [] = some []
order g zero visited (id ∷ frontier) = none
order g (suc fuel) visited (id ∷ frontier) =
    let skipped = order g fuel visited frontier in
    let entered : Option (List BasicBlock) = elim (get_bb g id) [
      | none ↦ none
      | some bb ↦ cons_found bb (order g fuel (id ∷ visited) (push_children bb frontier))
    ] in
    if contains visited id then skipped else entered

bind_cong :
    {A B : Type 0} (m : Run A) {f g : A → Run B} → ((a : A) → f a ≡ g a) → (m >>= f) ≡ (m >>= g)
bind_cong (done a) h = h a
bind_cong (fault e) h = refl

bind_assoc :
    {A B C : Type 0} (m : Run A) (f : A → Run B) (g : B → Run C)
    → ((m >>= f) >>= g) ≡ (m >>= λ a. f a >>= g)
bind_assoc (done a) f g = refl
bind_assoc (fault e) f g = refl

abbrev and_then : (Emitter → Run (Bool × Emitter)) → Bool × Emitter → Run (Bool × Emitter)
and_then f p = if p.0 then f p.1 else done (false, p.1)

and_then_assoc :
    (f g : Emitter → Run (Bool × Emitter)) (p : Bool × Emitter)
    → (and_then f p >>= and_then g) ≡ and_then (λ e. f e >>= and_then g) p
and_then_assoc f g (true, e) = refl
and_then_assoc f g (false, e) = refl

and_then_cong :
    {f g : Emitter → Run (Bool × Emitter)} (p : Bool × Emitter)
    → ((e : Emitter) → f e ≡ g e)
    → and_then f p ≡ and_then g p
and_then_cong (true, e) h = h e
and_then_cong (false, e) h = refl

emit_steps-append :
    (xs ys : List Step) (e : Emitter)
    → emit_steps (xs ++ ys) e ≡ (emit_steps xs e >>= and_then (emit_steps ys))
unfolding emit_steps
emit_steps-append [] ys e = refl
emit_steps-append (x ∷ xs) ys e =
    bind_cong (emit_step x e) (λ p.
      and_then_cong p (emit_steps-append xs ys)
      ∙ sym (and_then_assoc (emit_steps xs) (emit_steps ys) p))
    ∙ sym (bind_assoc (emit_step x e) (and_then (emit_steps xs)) (and_then (emit_steps ys)))

found_cons :
    (bb : BasicBlock) (o : Option (List BasicBlock)) (bbs : List BasicBlock)
    → cons_found bb o ≡ some bbs
    → (rest : List BasicBlock) × (o ≡ some rest) × (bbs ≡ bb ∷ rest)
found_cons bb none bbs h = absurd (cc)
found_cons bb (some rest) bbs h = (rest, refl, cc)

-- The walk emits the steps of the blocks in their order, as if they were one block.
pub walk-order :
    (g : Cfg) (fuel : ℕ) (visited frontier : List ℤ) (bbs : List BasicBlock) (e : Emitter)
    → order g fuel visited frontier ≡ some bbs
    → walk g fuel visited frontier e ≡ emit_steps (flat bbs) e
unfolding order walk emit_steps emit_bb
walk-order g fuel visited [] bbs e h = let same : [] ≡ bbs = cc in rw (← same) refl
walk-order g zero visited (id ∷ frontier) bbs e h = absurd (cc)
walk-order g (suc fuel) visited (id ∷ frontier) bbs e h = elim (Bool-cases (contains visited id)) [
  | inl seen ↦ rw seen (walk-order g fuel visited frontier bbs e (rw seen at h))
  | inr new ↦ elim (Option-cases (get_bb g id)) [
    | inl missing ↦ absurd (cc)
    | inr (bb, found) ↦
        let (rest, visits, same) =
          found_cons bb (order g fuel (id ∷ visited) (push_children bb frontier)) bbs
            (rw (new, found) at h) in
        rw (new, found, same)
          (bind_cong (emit_steps bb.steps e) (λ p.
              and_then_cong p
                (λ e'. walk-order g fuel (id ∷ visited) (push_children bb frontier) rest e' visits))
            ∙ sym (emit_steps-append bb.steps (flat rest) e))
  ]
]
