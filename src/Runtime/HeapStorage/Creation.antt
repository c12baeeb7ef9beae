-- ===== src/Runtime/HeapStorage/Creation.antt =====
-- `try_create_value` of src/runtime/heap_storage.hpp on a valid heap.
use minuet_lang_mirror.Base.{
  ℕ, ◌+◌, ◌≤◌, ◌<◌, ◌≡◌, refl, sym, ◌∙◌, ◌≢◌, inl, inr, true, none, some, List, [], ◌∷◌, arith,
  length, get_elem?, set, length-set, get_elem?-set_ne, get_elem?-set_cases, get_elem?-beyond, done,
  fault, bad_index,
}
use minuet_lang_mirror.Runtime.Values.{Addr, HeapValue}
use minuet_lang_mirror.Runtime.HeapStorage.{HeapStorage, update, try_create_value}
use minuet_lang_mirror.Runtime.HeapStorage.Invariant.{
  is_some, live, All, Distinct, IsHole, IsValid, live-set-some, All-mono₂,
}

-- The heap after the object `o` came to the empty slot `id`, with the queue and the counter given.
abbrev pub created : HeapStorage → List ℕ → ℕ → ℕ → HeapValue → HeapStorage
created h holes next_id id o = record {
  hole_list = holes;
  objects = set h.objects id (some h.next_addr);
  overhead = h.overhead + 16;
  next_id = next_id;
  store = update h.store h.next_addr (some o);
  next_addr = h.next_addr + 1;
}

-- What an allocation promises: a valid heap, a new address, the object at it, and no other change.
pub record Created (h : HeapStorage) (o : HeapValue) (p : Addr) (h' : HeapStorage) : Type 0 where
  pub valid : IsValid h'
  pub fresh : h.store p ≡ none
  pub holds : h'.store p ≡ some o
  pub others : (q : Addr) → q ≢ p → h'.store q ≡ h.store q
  pub one_more : live h'.objects ≡ live h.objects + 1

module _ (h : HeapStorage) (v : IsValid h) (holes : List ℕ) (next_id id : ℕ) (o : HeapValue)
    (empty : get_elem? h.objects id ≡ some none) (mine : id < next_id) (grows : h.next_id ≤ next_id)
    (bound : next_id ≤ 1024) (count : live h.objects + length holes + 1 ≡ next_id)
    (rest : All (IsHole h.objects h.next_id) holes) (apart : All (λ y. y ≢ id) holes)
    (distinct : Distinct holes) where
  owned_created :
      (i p : ℕ)
      → get_elem? (set h.objects id (some h.next_addr)) i ≡ some (some p)
      → (p < h.next_addr + 1) × (is_some (update h.store h.next_addr (some o) p) ≡ true)
  owned_created i p e = elim (get_elem?-set_cases h.objects id i (some h.next_addr) e) [
    | inl (same, new) ↦ ground arith
    | inr (other, old) ↦ ground (arith, v.owned i p old)
  ]

  unique_created :
      (i j p : ℕ)
      → get_elem? (set h.objects id (some h.next_addr)) i ≡ some (some p)
      → get_elem? (set h.objects id (some h.next_addr)) j ≡ some (some p)
      → i ≡ j
  unique_created i j p e f = elim (get_elem?-set_cases h.objects id i (some h.next_addr) e) [
    | inl (same, new) ↦ elim (get_elem?-set_cases h.objects id j (some h.next_addr) f) [
      | inl (same', new') ↦ same ∙ sym same'
      | inr (other', old') ↦ absurd (ground (arith, v.owned j p old'))
    ]
    | inr (other, old) ↦ elim (get_elem?-set_cases h.objects id j (some h.next_addr) f) [
      | inl (same', new') ↦ absurd (ground (arith, v.owned i p old))
      | inr (other', old') ↦ v.unique i j p old old'
    ]
  ]

  IsHole-created :
      (y : ℕ)
      → IsHole h.objects h.next_id y
      → y ≢ id
      → IsHole (set h.objects id (some h.next_addr)) next_id y
  IsHole-created y (lt, e) ne =
      (omega arith, get_elem?-set_ne h.objects id y (some h.next_addr) (λ x. ne (sym x)) ∙ e)

  pub IsValid-created : IsValid (created h holes next_id id o)
  IsValid-created = record {
    capacity = length-set h.objects id (some h.next_addr) ∙ v.capacity;
    bounded = bound;
    scored = omega (arith, live-set-some h.objects id h.next_addr empty, v.scored);
    counted = omega (arith, live-set-some h.objects id h.next_addr empty);
    holes_empty = All-mono₂ _ _ _ holes IsHole-created rest apart;
    holes_distinct = distinct;
    beyond_empty = λ i lo hi.
        get_elem?-set_ne h.objects id i (some h.next_addr) (omega arith)
        ∙ v.beyond_empty i (omega arith) hi;
    owned = owned_created;
    unique = unique_created;
    unborn = λ p lo. ground (arith, v.unborn p (omega arith));
  }

  Created-created : Created h o h.next_addr (created h holes next_id id o)
  Created-created = record {
    valid = IsValid-created;
    fresh = v.unborn h.next_addr (omega arith);
    holds = ground arith;
    others = λ q ne. ground arith;
    one_more = omega (arith, live-set-some h.objects id h.next_addr empty);
  }

-- The address and the heap that an allocation gives.
abbrev pub Allocates : HeapStorage → HeapValue → Type 0
Allocates h o =
    (p : Addr) × (h' : HeapStorage) × (try_create_value h o ≡ done (p, h')) × Created h o p h'

allocate_hole :
    (h : HeapStorage) (o : HeapValue) (id : ℕ) (holes : List ℕ)
    → IsValid h
    → h.hole_list ≡ id ∷ holes
    → Allocates h o
unfolding try_create_value
allocate_hole h o id holes v e =
    let rest : All (IsHole h.objects h.next_id) (id ∷ holes) = rw e at v.holes_empty in
    let distinct : Distinct (id ∷ holes) = rw e at v.holes_distinct in
    (
      h.next_addr,
      created h holes h.next_id id o,
      ground (arith, rest.0.1),
      Created-created h v holes h.next_id id o rest.0.1 rest.0.0 (omega arith) v.bounded
          (ground (arith, v.counted)) rest.1 distinct.0 distinct.1,
    )

allocate_next :
    (h : HeapStorage) (o : HeapValue)
    → IsValid h
    → h.hole_list ≡ []
    → h.next_id < 1024
    → Allocates h o
unfolding try_create_value
allocate_next h o v e room =
    let empty = v.beyond_empty h.next_id (omega arith) room in
    (
      h.next_addr,
      created h [] (h.next_id + 1) h.next_id o,
      ground (arith, empty),
      Created-created h v [] (h.next_id + 1) h.next_id o empty (omega arith) (omega arith)
          (omega arith) (ground (arith, v.counted)) tt tt tt,
    )

allocate_from :
    (h : HeapStorage) (o : HeapValue) (holes : List ℕ)
    → IsValid h
    → h.hole_list ≡ holes
    → live h.objects < 1024
    → Allocates h o
allocate_from h o [] v e room = allocate_next h o v e (ground (arith, v.counted))
allocate_from h o (id ∷ holes) v e room = allocate_hole h o id holes v e

-- On a valid heap with fewer than 1024 live objects, `try_create_value` succeeds: the heap stays valid
-- and counts one object more, the object stands at an address that held nothing, and what the
-- other addresses hold is as before.
pub try_create_value-Created :
    (h : HeapStorage) (o : HeapValue) → IsValid h → live h.objects < 1024 → Allocates h o
try_create_value-Created h o v = allocate_from h o h.hole_list v refl

full_from :
    (h : HeapStorage) (o : HeapValue) (holes : List ℕ)
    → IsValid h
    → h.hole_list ≡ holes
    → live h.objects ≡ 1024
    → try_create_value h o ≡ fault bad_index
unfolding try_create_value
full_from h o [] v e full =
    let here : h.next_id ≡ length h.objects = ground (arith, v.counted, v.capacity) in
    ground (arith, get_elem?-beyond h.objects h.next_id (omega arith))
full_from h o (id ∷ holes) v e full = absurd (ground (arith, v.counted, v.bounded))

-- On a valid heap whose 1024 slots all hold live objects, `try_create_value` writes outside the slots.
pub try_create_value_full :
    (h : HeapStorage) (o : HeapValue)
    → IsValid h
    → live h.objects ≡ 1024
    → try_create_value h o ≡ fault bad_index
try_create_value_full h o v = full_from h o h.hole_list v refl
