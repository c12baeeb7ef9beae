-- ===== src/Ir/Linking.antt =====
-- The laws of `link_bb` (src/ir/cfg.cpp), which connects two blocks of a graph.
use minuet_lang_mirror.Base.{
  ℕ, ℤ, pos, negsuc, ◌≡◌, ◌≢◌, refl, sym, ap, true, false, some, length, set, get_elem?-set_self,
  get_elem?-set_ne, lt_of_get_elem?, length-set, done, eq_ℤ, Bool-cases, inl, inr, arith,
}
use minuet_lang_mirror.Ir.Graph.{BasicBlock, Cfg, get_bb, linked_to, link_found, link_bb, dud_bb_id}

link_bb-found :
    (g : Cfg) (i : ℕ) (to_id : ℤ) (b : BasicBlock)
    → get_bb g (pos i) ≡ some b
    → link_bb g (pos i) to_id ≡ done (true, set g i (linked_to to_id b))
unfolding link_bb get_bb link_found
link_bb-found g i to_id b h = rw h refl

-- The block `b'` is `b` with a link to `to_id` in the first of its two places that was free, the truthy place before the falsy one; with both places taken it has the links it had. Its steps are those of `b`.
pub record Linked (b : BasicBlock) (to_id : ℤ) (b' : BasicBlock) : Type 0 where
  pub first_free : b.truthy_id ≡ dud_bb_id → (b'.truthy_id ≡ to_id) × (b'.falsy_id ≡ b.falsy_id)
  pub second_free :
      b.truthy_id ≢ dud_bb_id
      → b.falsy_id ≡ dud_bb_id
      → (b'.truthy_id ≡ b.truthy_id) × (b'.falsy_id ≡ to_id)
  pub none_free :
      b.truthy_id ≢ dud_bb_id
      → b.falsy_id ≢ dud_bb_id
      → (b'.truthy_id ≡ b.truthy_id) × (b'.falsy_id ≡ b.falsy_id)
  pub steps_kept : b'.steps ≡ b.steps

is_dud : (id : ℤ) → eq_ℤ id dud_bb_id ≡ true → id ≡ dud_bb_id
is_dud (pos n) h = absurd (ground arith)
is_dud (negsuc n) h = let zero_is : n ≡ 0 = ground arith in ap negsuc zero_is

not_dud : (id : ℤ) → eq_ℤ id dud_bb_id ≡ false → id ≢ dud_bb_id
not_dud id h e = let found = ap (λ z. eq_ℤ z dud_bb_id) e in cc

linked_to-Linked : (b : BasicBlock) (to_id : ℤ) → Linked b to_id (linked_to to_id b)
unfolding linked_to
linked_to-Linked b to_id = elim (Bool-cases (eq_ℤ b.truthy_id dud_bb_id)) [
  | inl t ↦ rw t (record {
    first_free = λ e. (refl, refl);
    second_free = λ ne e. absurd (ne (is_dud b.truthy_id t));
    none_free = λ ne e. absurd (ne (is_dud b.truthy_id t));
    steps_kept = refl;
  })
  | inr t ↦ elim (Bool-cases (eq_ℤ b.falsy_id dud_bb_id)) [
    | inl f ↦
        rw (t, f)
          (record {
            first_free = λ e. absurd (not_dud b.truthy_id t e);
            second_free = λ ne e. (refl, refl);
            none_free = λ ne e. absurd (e (is_dud b.falsy_id f));
            steps_kept = refl;
          })
    | inr f ↦
        rw (t, f)
          (record {
            first_free = λ e. absurd (not_dud b.truthy_id t e);
            second_free = λ ne e. absurd (not_dud b.falsy_id f e);
            none_free = λ ne e. (refl, refl);
            steps_kept = refl;
          })
  ]
]

-- A link from block `i`, which exists, is accepted whatever the target. The block gets the link in the first of its two places that is free, truthy before falsy; where both are taken the link is lost although the answer is `true`. The steps of the block, every other block `j`, and the number of blocks are the same.
pub link_bb-Linked :
    (g : Cfg) (i : ℕ) (to_id j : ℤ) (b : BasicBlock)
    → get_bb g (pos i) ≡ some b
    → j ≢ pos i
    → (g' : Cfg) × (b' : BasicBlock) × (link_bb g (pos i) to_id ≡ done (true, g'))
      × (get_bb g' (pos i) ≡ some b')
      × Linked b to_id b'
      × (get_bb g' j ≡ get_bb g j)
      × (length g' ≡ length g)
unfolding get_bb
link_bb-Linked g i to_id j b h ne = (
  set g i (linked_to to_id b),
  linked_to to_id b,
  link_bb-found g i to_id b h,
  get_elem?-set_self g i (linked_to to_id b) (lt_of_get_elem? g i h),
  linked_to-Linked b to_id,
  others j ne,
  length-set g i (linked_to to_id b),
)
  where
    others : (j : ℤ) → j ≢ pos i → get_bb (set g i (linked_to to_id b)) j ≡ get_bb g j
    others (negsuc j) ne = refl
    others (pos j) ne = get_elem?-set_ne g i j (linked_to to_id b) (λ e. ne (ap pos (sym e)))
