-- ===== src/Runtime/Vm/Collector.antt =====
-- `Engine::try_mark_and_sweep` of src/runtime/vm.cpp. The mark phase follows the object pointers
-- from the registers breadth first; the sweep runs over the slots of the heap.
pub mod Sweep
pub mod Mark
pub mod Reach
use minuet_lang_mirror.Base.{
  ℕ, zero, suc, ◌+◌, ℤ, pos, negsuc, ◌==◌, Bool, true, false, not, ◌||◌, ◌&&◌, Option, none, some,
  List, [], ◌∷◌, ◌++◌, length, get_elem?, if◌then◌else◌, Run, done, fault, ◌>>=◌, bad_index,
  bad_pointer, no_fuel,
}
use minuet_lang_mirror.Runtime.Values.{Addr, FastValue, to_object_ptr}
use minuet_lang_mirror.Runtime.Objects.{items, is_sequence_object}
use minuet_lang_mirror.Runtime.HeapStorage.{HeapStorage, load, is_ripe, try_destroy_value}
use minuet_lang_mirror.Runtime.Vm.Engine.{Engine}

abbrev pub contains : List Addr → Addr → Bool
contains [] p = false
contains (q ∷ qs) p = q == p || contains qs p

abbrev keep_root : Option Addr → List Addr → List Addr
keep_root none ps = ps
keep_root (some p) ps = p ∷ ps

-- The object pointers in the `n` registers from the first one on.
unfoldable pub roots : ℕ → List FastValue → Run (List Addr)
roots zero memory = done []
roots (suc n) [] = fault bad_index
roots (suc n) (v ∷ vs) = do ps ← roots n vs; done (keep_root (to_object_ptr v) ps)

-- The registers `0` to `m_rft`, both included.
abbrev pub register_count : ℤ → ℕ
register_count (pos n) = suc n
register_count (negsuc n) = 0

abbrev keep_child : List Addr → Option Addr → List Addr → List Addr
keep_child visited none ps = ps
keep_child visited (some p) ps = if contains visited p then ps else p ∷ ps

-- The pointers among the items that are not yet visited.
unfoldable pub children : List Addr → List FastValue → List Addr
children visited [] = []
children visited (v ∷ vs) = keep_child visited (to_object_ptr v) (children visited vs)

-- The loop over the frontier, a queue. The result is `live_object_ptrs`, latest first; `visited`
-- holds the same addresses, since a round adds its object to both.
unfoldable pub mark : ℕ → HeapStorage → List Addr → List Addr → Run (List Addr)
unfolding load items is_sequence_object children
mark n h visited [] = done visited
mark zero h visited (p ∷ frontier) = fault no_fuel
mark (suc n) h visited (p ∷ frontier) = do
  o ← load h p
  let found = if is_sequence_object o then children visited (items o) else []
  mark n h (p ∷ visited) (frontier ++ found)

-- One slot, read through its pointer with no test for an empty one. No object has the tag `dud`, so
-- each one is destroyed, and `rest` goes on behind it.
unfoldable pub sweep_cell :
    (HeapStorage → Run HeapStorage) → ℕ → HeapStorage → Option (Option Addr) → Run HeapStorage
unfolding load try_destroy_value
sweep_cell rest cell_id h none = fault bad_index
sweep_cell rest cell_id h (some none) = fault bad_pointer
sweep_cell rest cell_id h (some (some p)) = do
  o ← load h p
  (destroyed, h') ← try_destroy_value h cell_id
  if destroyed then rest h' else done h'

-- The loop over the slots from `cell_id` on, `n` of them.
unfoldable pub sweep : ℕ → ℕ → HeapStorage → Run HeapStorage
unfolding sweep_cell
sweep zero cell_id h = done h
sweep (suc n) cell_id h = sweep_cell (sweep n (cell_id + 1)) cell_id h (get_elem? h.objects cell_id)

-- `try_mark_and_sweep`, with fuel for the mark phase.
unfoldable pub try_mark_and_sweep : ℕ → Engine → Run Engine
unfolding is_ripe
try_mark_and_sweep n e = if not (is_ripe e.heap) then done e else do
  frontier ← roots (register_count e.rft) e.memory
  live ← mark n e.heap [] frontier
  h ← sweep (length e.heap.objects) 0 e.heap
  done (record e { heap = h })
