-- ===== src/Runtime/HeapStorage.antt =====
-- src/runtime/heap_storage.cpp and heap_storage.hpp: slots of `std::unique_ptr`, a queue of freed
-- slots, and the overhead that triggers a collection. `new` gives addresses that were never used.
pub mod Invariant
pub mod Creation
pub mod Destruction
pub mod Preloads
pub mod Preserved
pub mod Access
use minuet_lang_mirror.Base.{
  ℕ, zero, suc, ◌+◌, ◌-◌, ◌*◌, Bool, true, false, Option, none, some, List, [], ◌∷◌, ◌++◌,
  if◌then◌else◌, leb, ◌==◌, get_elem?, set, replicate, length, Run, done, fault, ◌>>=◌, from_option,
  bad_index, bad_pointer,
}
use minuet_lang_mirror.Runtime.Values.{Addr, Ref, item, wild, FastValue, HeapValue}
use minuet_lang_mirror.Runtime.Objects
use minuet_lang_mirror.Runtime.Objects.{items, set_item}

pub record HeapStorage : Type 0 where
  pub hole_list : List ℕ
  pub objects : List (Option Addr)
  pub overhead : ℕ
  pub next_id : ℕ
  pub store : Addr → Option HeapValue
  pub next_addr : Addr

abbrev pub normal_gc_threshold : ℕ
normal_gc_threshold = 8192

abbrev pub normal_obj_overhead : ℕ
normal_obj_overhead = 16

abbrev pub normal_obj_capacity : ℕ
normal_obj_capacity = 1024

-- One cell of memory gets or loses its object.
abbrev pub update : (Addr → Option HeapValue) → Addr → Option HeapValue → Addr → Option HeapValue
update f p o q = if q == p then o else f q

-- The object of a slot that is overwritten or cleared is deleted.
abbrev pub release : (Addr → Option HeapValue) → Option Addr → Addr → Option HeapValue
release f none = f
release f (some p) = update f p none

-- `allocate_id`
unfoldable pub allocate_id : HeapStorage → List ℕ → ℕ × HeapStorage
allocate_id h (id ∷ holes) = (id, record h { hole_list = holes })
allocate_id h [] = (h.next_id, record h { next_id = h.next_id + 1 })

-- The write of the new object to its slot, whose present content is the last argument.
unfoldable pub place : HeapStorage → ℕ → HeapValue → Option (Option Addr) → Run (Addr × HeapStorage)
place h id o none = fault bad_index
place h id o (some old) = done (
  h.next_addr,
  record h {
    objects = set h.objects id (some h.next_addr);
    overhead = h.overhead + normal_obj_overhead;
    store = update (release h.store old) h.next_addr (some o);
    next_addr = h.next_addr + 1;
  },
)

-- `try_create_value`
unfoldable pub try_create_value : HeapStorage → HeapValue → Run (Addr × HeapStorage)
unfolding allocate_id place
try_create_value h o =
    let (id, h') = allocate_id h h.hole_list in place h' id o (get_elem? h'.objects id)

unfoldable pub destroy_in : HeapStorage → ℕ → Option (Option Addr) → Run (Bool × HeapStorage)
destroy_in h id none = fault bad_index
destroy_in h id (some none) = done (false, h)
destroy_in h id (some (some p)) = done (
  true,
  record h {
    objects = set h.objects id none;
    overhead = h.overhead - normal_obj_overhead;
    hole_list = h.hole_list ++ id ∷ [];
    store = update h.store p none;
  },
)

-- `try_destroy_value`
unfoldable pub try_destroy_value : HeapStorage → ℕ → Run (Bool × HeapStorage)
unfolding destroy_in
try_destroy_value h id = destroy_in h id (get_elem? h.objects id)

-- `is_ripe`
unfoldable pub is_ripe : HeapStorage → Bool
is_ripe h = leb normal_gc_threshold h.overhead

-- The empty heap of the default constructor.
abbrev pub empty_heap : HeapStorage
empty_heap = record {
  hole_list = [];
  objects = replicate normal_obj_capacity none;
  overhead = 0;
  next_id = 0;
  store = λ p. none;
  next_addr = 0;
}

-- One object that was built before the program ran is moved to slot `preload_n`.
unfoldable pub preload : HeapStorage → ℕ → List HeapValue → Run HeapStorage
unfolding place
preload h preload_n [] =
    done (record h { overhead = preload_n * normal_obj_overhead; next_id = preload_n })
preload h preload_n (o ∷ os) = do
  (p, h') ← place h preload_n o (get_elem? h.objects preload_n)
  preload h' (preload_n + 1) os

-- The constructor from preloaded objects.
unfoldable pub from_preloads : List HeapValue → Run HeapStorage
unfolding preload
from_preloads preloads = preload empty_heap 0 preloads

-- A read and a write through an object pointer.
unfoldable pub load : HeapStorage → Addr → Run HeapValue
load h p = from_option bad_pointer (h.store p)

abbrev store_over : HeapStorage → Addr → HeapValue → Option HeapValue → Run HeapStorage
store_over h p o none = fault bad_pointer
store_over h p o (some old) = done (record h { store = update h.store p (some o) })

unfoldable pub store_at : HeapStorage → Addr → HeapValue → Run HeapStorage
store_at h p o = store_over h p o (h.store p)

-- A read and a write through a `FastValue*`.
unfoldable pub deref : HeapStorage → Ref → Run FastValue
unfolding load items
deref h wild = fault bad_pointer
deref h (item p i) = do o ← load h p; from_option bad_pointer (get_elem? (items o) i)

unfoldable pub assign : HeapStorage → Ref → FastValue → Run HeapStorage
unfolding load store_at set_item
assign h wild v = fault bad_pointer
assign h (item p i) v = do o ← load h p; store_at h p (set_item o i v)
