-- ===== src/Runtime/HeapStorage/Destruction.antt =====
-- `try_destroy_value` of src/runtime/heap_storage.cpp on a valid heap.
use minuet_lang_mirror.Base.{
  ℕ, ◌+◌, ◌-◌, ◌≤◌, ◌<◌, ◌≡◌, refl, ap, ◌∙◌, ◌≢◌, inl, inr, true, none, some, [], ◌∷◌, ◌++◌, arith,
  length, get_elem?, set, length-set, length-append, get_elem?-set_self, get_elem?-set_ne,
  get_elem?-set_cases, lt_of_get_elem?, done,
}
use minuet_lang_mirror.Runtime.Values.{Addr}
use minuet_lang_mirror.Runtime.HeapStorage.{HeapStorage, update, try_destroy_value}
use minuet_lang_mirror.Runtime.HeapStorage.Invariant.{
  is_some, live, IsHole, IsValid, live-set-none, All-mono, All-append, Distinct-append,
}

abbrev destroyed : HeapStorage → ℕ → Addr → HeapStorage
destroyed h id p = record h {
  objects = set h.objects id none;
  overhead = h.overhead - 16;
  hole_list = h.hole_list ++ id ∷ [];
  store = update h.store p none;
}

-- What the destruction of the object at `p`, in slot `id`, promises.
pub record Destroyed (h : HeapStorage) (id : ℕ) (p : Addr) (h' : HeapStorage) : Type 0 where
  pub valid : IsValid h'
  pub slots : h'.objects ≡ set h.objects id none
  pub emptied : get_elem? h'.objects id ≡ some none
  pub gone : h'.store p ≡ none
  pub others : (q : Addr) → q ≢ p → h'.store q ≡ h.store q
  pub one_less : live h.objects ≡ live h'.objects + 1

module _ (h : HeapStorage) (v : IsValid h) (id p : ℕ)
    (full : get_elem? h.objects id ≡ some (some p)) where
  in_range : id < length h.objects
  in_range = lt_of_get_elem? h.objects id full

  in_use : id < h.next_id
  in_use = ground (arith, v.beyond_empty id, v.capacity, in_range)

  IsHole-survives :
      (y : ℕ) → IsHole h.objects h.next_id y → IsHole (set h.objects id none) h.next_id y
  IsHole-survives y (lt, e) = (
    lt,
    get_elem?-set_ne h.objects id y none (λ x. ground (arith, ap (get_elem? h.objects) x)) ∙ e,
  )

  hole_ne : (y : ℕ) → IsHole h.objects h.next_id y → y ≢ id
  hole_ne y (lt, e) x = ground (arith, ap (get_elem? h.objects) x)

  emptied_here : get_elem? (set h.objects id none) id ≡ some none
  emptied_here = get_elem?-set_self h.objects id none in_range

  beyond_destroyed :
      (i : ℕ) → h.next_id ≤ i → i < 1024 → get_elem? (set h.objects id none) i ≡ some none
  beyond_destroyed i lo hi =
      get_elem?-set_ne h.objects id i none (omega (arith, in_use)) ∙ v.beyond_empty i lo hi

  owned_destroyed :
      (i q : ℕ)
      → get_elem? (set h.objects id none) i ≡ some (some q)
      → (q < h.next_addr) × (is_some (update h.store p none q) ≡ true)
  owned_destroyed i q e = elim (get_elem?-set_cases h.objects id i none e) [
    | inl (same, new) ↦ absurd (cc)
    | inr (other, old) ↦ ground (arith, v.owned i q old, v.unique i id p)
  ]

  unique_destroyed :
      (i j q : ℕ)
      → get_elem? (set h.objects id none) i ≡ some (some q)
      → get_elem? (set h.objects id none) j ≡ some (some q)
      → i ≡ j
  unique_destroyed i j q e f = elim (get_elem?-set_cases h.objects id i none e) [
    | inl (same, new) ↦ absurd (cc)
    | inr (other, old) ↦ elim (get_elem?-set_cases h.objects id j none f) [
      | inl (same', new') ↦ absurd (cc)
      | inr (other', old') ↦ v.unique i j q old old'
    ]
  ]

  IsValid-destroyed : IsValid (destroyed h id p)
  IsValid-destroyed = record {
    capacity = length-set h.objects id none ∙ v.capacity;
    bounded = v.bounded;
    scored = omega (arith, live-set-none h.objects id p full, v.scored);
    counted =
        omega (
          arith,
          live-set-none h.objects id p full,
          v.counted,
          length-append h.hole_list (id ∷ []),
        );
    holes_empty =
        All-append _ h.hole_list id (All-mono _ _ h.hole_list IsHole-survives v.holes_empty)
          (in_use, emptied_here);
    holes_distinct =
        Distinct-append h.hole_list id v.holes_distinct
          (All-mono _ _ h.hole_list hole_ne v.holes_empty);
    beyond_empty = beyond_destroyed;
    owned = owned_destroyed;
    unique = unique_destroyed;
    unborn = λ q lo. ground (arith, v.unborn q lo);
  }

  -- On a valid heap, `try_destroy_value` of a slot that holds an object says so, and empties the slot
  -- and the object's address: the heap stays valid, counts one object less, and keeps the others.
  pub try_destroy_value-Destroyed :
      (h' : HeapStorage) × (try_destroy_value h id ≡ done (true, h')) × Destroyed h id p h'
  unfolding try_destroy_value
  try_destroy_value-Destroyed = (
    destroyed h id p,
    ground (arith, full),
    record {
      valid = IsValid-destroyed;
      slots = refl;
      emptied = emptied_here;
      gone = ground arith;
      others = λ q ne. ground arith;
      one_less = omega (arith, live-set-none h.objects id p full);
    },
  )
