-- ===== src/Runtime/Vm/Collector/Sweep.antt =====
-- The sweep of `Engine::try_mark_and_sweep` (src/runtime/vm.cpp) on a valid heap.

use minuet_lang_mirror.Base.{
  ℕ, zero, suc, ◌+◌, ◌≤◌, ◌<◌, ◌≡◌, refl, sym, ap, ◌∙◌, ◌≢◌, ◌⊎◌, inl, inr, true, Option, none,
  some, List, [], ◌∷◌, arith, length, get_elem?, get_elem?-set_ne, le_of_get_elem?, lt_of_get_elem?,
  Option-cases, done, fault, bad_pointer,
}
use minuet_lang_mirror.Base.Ensures.{Ensures, returned, faulted}
use minuet_lang_mirror.Runtime.Values.{Addr, HeapValue}
use minuet_lang_mirror.Runtime.HeapStorage.{HeapStorage, load, is_ripe}
use minuet_lang_mirror.Runtime.HeapStorage.Invariant.{is_some, live, IsValid}
use minuet_lang_mirror.Runtime.HeapStorage.Destruction.{Destroyed, try_destroy_value-Destroyed}
use minuet_lang_mirror.Runtime.Vm.Engine.{Engine}
use minuet_lang_mirror.Runtime.Vm.Collector.{sweep, mark, roots, register_count, try_mark_and_sweep}

-- The content of a slot: outside the slots, empty, or an object.
slot_cases :
    (h : HeapStorage) (i : ℕ)
    → (get_elem? h.objects i ≡ none)
      ⊎ (get_elem? h.objects i ≡ some none)
      ⊎ ((p : Addr) × (get_elem? h.objects i ≡ some (some p)))
slot_cases h i = cases (get_elem? h.objects i)
  where
    cases :
        (o : Option (Option Addr))
        → (o ≡ none) ⊎ (o ≡ some none) ⊎ ((p : Addr) × (o ≡ some (some p)))
    cases none = inl refl
    cases (some none) = inr (inl refl)
    cases (some (some p)) = inr (inr (p, refl))

load-owned :
    (h : HeapStorage) (p : Addr)
    → is_some (h.store p) ≡ true
    → (o : HeapValue) × (load h p ≡ done o)
unfolding load
load-owned h p owned = elim (Option-cases (h.store p)) [
  | inl e ↦ absurd (ground arith)
  | inr (o, e) ↦ (o, rw e)
]

-- A round of the sweep over a slot with an object destroys the object and goes on.
sweep_round :
    (h : HeapStorage) (n cell_id p : ℕ)
    → IsValid h
    → get_elem? h.objects cell_id ≡ some (some p)
    → (h' : HeapStorage) × (sweep (suc n) cell_id h ≡ sweep n (cell_id + 1) h')
      × Destroyed h cell_id p h'
unfolding sweep
sweep_round h n cell_id p v full =
    let (o, loaded) = load-owned h p (v.owned cell_id p full).1 in
    let (h', e, d) = try_destroy_value-Destroyed h v cell_id p full in
    (h', ground (arith, full, loaded, e), d)

pub sweep-fault :
    (n cell_id i : ℕ) (h : HeapStorage)
    → IsValid h
    → cell_id + n ≡ 1024
    → cell_id ≤ i
    → get_elem? h.objects i ≡ some none
    → i < 1024
    → sweep n cell_id h ≡ fault bad_pointer
unfolding sweep
sweep-fault zero cell_id i h v end lo empty hi = absurd (omega arith)
sweep-fault (suc n) cell_id i h v end lo empty hi = elim (slot_cases h cell_id) [
  | inl beyond ↦ absurd (omega (arith, le_of_get_elem? h.objects cell_id beyond, v.capacity))
  | inr (inl here) ↦ rw (here, sweep)
  | inr (inr (p, full)) ↦
      let (h', e, d) = sweep_round h n cell_id p v full in
      let other : cell_id ≢ i = λ same. ground (arith, ap (get_elem? h.objects) same) in
      let still : get_elem? h'.objects i ≡ some none =
        ap (λ xs. get_elem? xs i) d.slots
        ∙ get_elem?-set_ne h.objects cell_id i none other
        ∙ empty in
      e ∙ sweep-fault n (cell_id + 1) i h' d.valid (omega arith) (omega arith) still hi
]

-- A list with fewer live slots than slots has an empty one.
empty_slot :
    (xs : List (Option Addr)) → live xs < length xs → (i : ℕ) × (get_elem? xs i ≡ some none)
unfolding live
empty_slot [] lt = absurd (omega arith)
empty_slot (none ∷ xs) lt = (0, refl)
empty_slot (some p ∷ xs) lt = let (i, e) = empty_slot xs (omega arith) in (suc i, e)

live-le : (xs : List (Option Addr)) → live xs ≤ length xs
unfolding live
live-le [] = omega arith
live-le (none ∷ xs) = omega (arith, live-le xs)
live-le (some p ∷ xs) = omega (arith, live-le xs)

-- A list whose slots are all live has an object in each.
all_live : (xs : List (Option Addr)) (i : ℕ) → live xs ≡ length xs → get_elem? xs i ≢ some none
unfolding live
all_live [] i e h = cc
all_live (none ∷ xs) i e h = absurd (omega (arith, live-le xs))
all_live (some p ∷ xs) zero e h = cc
all_live (some p ∷ xs) (suc i) e h = all_live xs i (omega arith) h

-- Where no slot from `cell_id` on is empty, the sweep destroys an object in each of them.
sweep_full :
    (n cell_id : ℕ) (h : HeapStorage)
    → IsValid h
    → cell_id + n ≡ 1024
    → ((i : ℕ) → cell_id ≤ i → get_elem? h.objects i ≢ some none)
    → (h' : HeapStorage) × (sweep n cell_id h ≡ done h')
      × IsValid h'
      × (live h'.objects + n ≡ live h.objects)
unfolding sweep
sweep_full zero cell_id h v end full = (h, refl, v, omega arith)
sweep_full (suc n) cell_id h v end full = elim (slot_cases h cell_id) [
  | inl beyond ↦ absurd (omega (arith, le_of_get_elem? h.objects cell_id beyond, v.capacity))
  | inr (inl here) ↦ absurd (full cell_id (omega arith) here)
  | inr (inr (p, holds)) ↦
      let (h', e, d) = sweep_round h n cell_id p v holds in
      let later : (i : ℕ) → cell_id + 1 ≤ i → get_elem? h'.objects i ≢ some none = λ i lo x.
        full i (omega arith) (
          sym (
            ap (λ xs. get_elem? xs i) d.slots
            ∙ get_elem?-set_ne h.objects cell_id i none (omega arith))
          ∙ x) in
      let (h'', e', v', c) = sweep_full n (cell_id + 1) h' d.valid (omega arith) later in
      (h'', e ∙ e', v', omega (arith, d.one_less))
]

module _ (e : Engine) (n : ℕ) (frontier marked : List Addr) (v : IsValid e.heap)
    (ripe : is_ripe e.heap ≡ true) (rooted : roots (register_count e.rft) e.memory ≡ done frontier)
    (traced : mark n e.heap [] frontier ≡ done marked) where
  collected :
      (h : HeapStorage)
      → sweep 1024 0 e.heap ≡ done h
      → try_mark_and_sweep n e ≡ done (record e { heap = h })
  unfolding try_mark_and_sweep
  collected h swept = rw (ripe, rooted, traced, v.capacity, swept)

  -- On a valid heap that is ripe for collection and has a free slot, the collector reads through the
  -- null pointer of that slot, once the objects that the registers reach are marked.
  pub try_mark_and_sweep-fault :
      live e.heap.objects < 1024 → try_mark_and_sweep n e ≡ fault bad_pointer
  unfolding try_mark_and_sweep
  try_mark_and_sweep-fault room =
      let (i, empty) = empty_slot e.heap.objects (omega (arith, v.capacity)) in
      let swept =
        sweep-fault 1024 0 i e.heap v refl (omega arith) empty
          (omega (arith, lt_of_get_elem? e.heap.objects i empty, v.capacity)) in
      rw (ripe, rooted, traced, v.capacity, swept)

  -- On a valid heap that is ripe for collection and has no free slot, where the registers can be read and the mark phase ends, the collector leaves a valid heap with no object at all: also the objects in `marked`, which the mark phase reached, are destroyed.
  pub try_mark_and_sweep_all :
      live e.heap.objects ≡ 1024
      → (h : HeapStorage) × (try_mark_and_sweep n e ≡ done (record e { heap = h }))
        × IsValid h
        × (live h.objects ≡ 0)
  try_mark_and_sweep_all full =
      let (h, swept, v', c) =
        sweep_full 1024 0 e.heap v refl
          (λ i lo. all_live e.heap.objects i (full ∙ sym v.capacity)) in
      (h, collected h swept, v', omega arith)

-- A sweep that ends leaves a valid heap.
pub sweep-Ensures :
    (n cell_id : ℕ) (h : HeapStorage) → IsValid h → Ensures IsValid (sweep n cell_id h)
unfolding sweep
sweep-Ensures zero cell_id h v = returned v
sweep-Ensures (suc n) cell_id h v = elim (slot_cases h cell_id) [
  | inl beyond ↦ rw (beyond, sweep) faulted
  | inr (inl here) ↦ rw (here, sweep) faulted
  | inr (inr (p, holds)) ↦
      let (h', e, d) = sweep_round h n cell_id p v holds in
      rw e (sweep-Ensures n (cell_id + 1) h' d.valid)
]
