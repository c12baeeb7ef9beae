-- ===== src/Runtime/HeapStorage/Preloads.antt =====
-- The constructors of `HeapStorage` (src/runtime/heap_storage.cpp) and the invariant of the heap.
use minuet_lang_mirror.Base.{
  ℕ, zero, suc, ◌+◌, ◌*◌, ◌≤◌, ◌<◌, ◌≡◌, refl, ap, ◌∙◌, none, some, List, [], ◌∷◌, arith, length,
  get_elem?, set, replicate, length-replicate, done,
}
use mathlib.Core.Path.{subst}
use minuet_lang_mirror.Runtime.Values.{HeapValue}
use minuet_lang_mirror.Runtime.HeapStorage.{
  HeapStorage, update, place, empty_heap, preload, from_preloads,
}
use minuet_lang_mirror.Runtime.HeapStorage.Invariant.{live, IsValid, live-replicate}
use minuet_lang_mirror.Runtime.HeapStorage.Creation.{IsValid-created}

get_elem?-replicate {ℓ} :
    {A : Type ℓ} (n i : ℕ) (a : A) → i < n → get_elem? (replicate n a) i ≡ some a
get_elem?-replicate zero i a h = elim h [ ]
get_elem?-replicate (suc n) zero a h = refl
get_elem?-replicate (suc n) (suc i) a h = get_elem?-replicate n i a (omega arith)

replicate-none : (n i p : ℕ) → get_elem? (replicate n none) i ≡ some (some p) → ⊥
replicate-none zero i p e = cc
replicate-none (suc n) zero p e = cc
replicate-none (suc n) (suc i) p e = replicate-none n i p e

module _ (n : ℕ) (full : n ≡ 1024) where
  sized : HeapStorage
  sized = record empty_heap { objects = replicate n none }

  sized-IsValid : IsValid sized
  unfolding sized
  sized-IsValid = record {
    capacity = length-replicate n none ∙ full;
    bounded = omega arith;
    scored = omega (arith, live-replicate n);
    counted = omega (arith, live-replicate n);
    holes_empty = tt;
    holes_distinct = tt;
    beyond_empty = λ i lo hi. get_elem?-replicate n i none (omega arith);
    owned = λ i p e. absurd (replicate-none n i p e);
    unique = λ i j p e f. absurd (replicate-none n i p e);
    unborn = λ p lo. refl;
  }

pub empty_heap-IsValid : IsValid empty_heap
unfolding sized
empty_heap-IsValid = sized-IsValid 1024 refl

-- The heap that `preload` returns.
abbrev pub Preloads : HeapStorage → ℕ → List HeapValue → Type 0
Preloads h n os =
    (h' : HeapStorage) × (preload h n os ≡ done h') × IsValid h' × (live h'.objects ≡ n + length os)

preload-IsValid :
    (os : List HeapValue) (h : HeapStorage) (n : ℕ)
    → IsValid (record h { next_id = n; overhead = n * 16 })
    → h.hole_list ≡ []
    → n + length os ≤ 1024
    → Preloads h n os
unfolding preload place
preload-IsValid [] h n v holes fits = (
  record h { next_id = n; overhead = n * 16 },
  refl,
  v,
  omega (arith, v.counted, ap length holes),
)
preload-IsValid (o ∷ os) h n v holes fits =
    let base = record h { next_id = n; overhead = n * 16 } in
    let empty = v.beyond_empty n (omega arith) (omega arith) in
    let valid =
      IsValid-created base v h.hole_list (n + 1) n o empty (omega arith) (omega arith) (omega arith)
        (omega (arith, v.counted)) v.holes_empty (rw holes tt) v.holes_distinct in
    let placed : HeapStorage = record h {
      objects = set h.objects n (some h.next_addr);
      overhead = h.overhead + 16;
      store = update h.store h.next_addr (some o);
      next_addr = h.next_addr + 1;
    } in
    let score : n * 16 + 16 ≡ (n + 1) * 16 = omega arith in
    let (h', e, v', c) =
      preload-IsValid os placed (n + 1)
        (subst (λ k. IsValid (record placed { next_id = n + 1; overhead = k })) score valid) holes
        (omega arith) in
    (h', rw empty e, v', omega arith)

-- A heap of at most 1024 preloaded objects is built, is valid, and counts as many live objects.
pub from_preloads-IsValid :
    (preloads : List HeapValue)
    → length preloads ≤ 1024
    → (h : HeapStorage) × (from_preloads preloads ≡ done h)
      × IsValid h
      × (live h.objects ≡ length preloads)
unfolding from_preloads
from_preloads-IsValid preloads fits =
    let (h, e, v, c) =
      preload-IsValid preloads empty_heap 0 empty_heap-IsValid refl (omega arith) in
    (h, e, v, omega arith)
