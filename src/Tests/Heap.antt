-- ===== src/Tests/Heap.antt =====
-- A heap of src/runtime/heap_storage.cpp with one list in it, and full heaps.
use minuet_lang_mirror.Base.{
  ℕ, ◌≡◌, refl, arith, ◌≤◌, [], ◌∷◌, pos, true, false, length, replicate, length-replicate, done,
}
use minuet_lang_mirror.Runtime.Values.{Addr, int32, boolean, HeapValue, sequence_value}
use minuet_lang_mirror.Runtime.HeapStorage.{
  HeapStorage, empty_heap, try_create_value, try_destroy_value, from_preloads,
}
use minuet_lang_mirror.Runtime.HeapStorage.Invariant.{IsValid, live, live-replicate}
use minuet_lang_mirror.Runtime.HeapStorage.Creation.{
  Created, created, IsValid-created, try_create_value-Created,
}
use minuet_lang_mirror.Runtime.HeapStorage.Destruction.{Destroyed, try_destroy_value-Destroyed}
use minuet_lang_mirror.Runtime.HeapStorage.Preloads.{empty_heap-IsValid, from_preloads-IsValid}

-- `[6, true]`
abbrev pub list : HeapValue
list =
    sequence_value
      (record { items = int32 (pos 6) ∷ boolean true ∷ []; length = 2; frozen = false })

abbrev pub one_list : HeapStorage
one_list = created empty_heap [] 1 0 list

pub one_list-IsValid : IsValid one_list
one_list-IsValid =
    IsValid-created empty_heap empty_heap-IsValid [] 1 0 list refl (omega arith) (omega arith)
      (omega arith) (omega (arith, live-replicate 1024)) tt tt tt

try_create_value-Created_example :
    (p : Addr) × (h' : HeapStorage) × (try_create_value empty_heap list ≡ done (p, h'))
    × Created empty_heap list p h'
try_create_value-Created_example =
    try_create_value-Created empty_heap list empty_heap-IsValid (omega (arith, live-replicate 1024))

try_destroy_value-Destroyed_example :
    (h' : HeapStorage) × (try_destroy_value one_list 0 ≡ done (true, h'))
    × Destroyed one_list 0 0 h'
try_destroy_value-Destroyed_example = try_destroy_value-Destroyed one_list one_list-IsValid 0 0 refl

from_preloads-IsValid_example :
    (h : HeapStorage) × (from_preloads (list ∷ []) ≡ done h) × IsValid h × (live h.objects ≡ 1)
from_preloads-IsValid_example = from_preloads-IsValid (list ∷ []) (omega arith)

-- A heap of `n` preloaded lists.
module _ (n : ℕ) (fits : n ≤ 1024) where
  preloaded :
      (h : HeapStorage) × (from_preloads (replicate n list) ≡ done h)
      × IsValid h
      × (live h.objects ≡ length (replicate n list))
  preloaded = from_preloads-IsValid (replicate n list) (omega (arith, length-replicate n list))

  pub many : (h : HeapStorage) × IsValid h × (live h.objects ≡ n)
  many =
      let (h, built, v, count) = preloaded in (h, v, omega (arith, count, length-replicate n list))

abbrev full : (h : HeapStorage) × IsValid h × (live h.objects ≡ 1024)
full = many 1024 (omega arith)
