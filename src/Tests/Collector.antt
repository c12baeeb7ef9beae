-- ===== src/Tests/Collector.antt =====
-- The collector of src/runtime/vm.cpp on a heap that is half full, on one that is full, and on nested
-- lists.
use minuet_lang_mirror.Base.{
  ℕ, ◌≡◌, refl, arith, ◌≤◌, [], pos, negsuc, none, true, done, fault, bad_pointer, List, ◌∷◌, false,
  Bool-cases, inl, inr, ◌==◌,
}
use minuet_lang_mirror.Runtime.Values.{Addr, sequence, HeapValue, sequence_value}
use minuet_lang_mirror.Runtime.Objects.{items, is_sequence_object}
use minuet_lang_mirror.Runtime.HeapStorage.{HeapStorage, is_ripe, empty_heap, load}
use minuet_lang_mirror.Runtime.HeapStorage.Creation.{
  Created, try_create_value-Created, created, IsValid-created,
}
use minuet_lang_mirror.Runtime.HeapStorage.Preloads.{empty_heap-IsValid}
use minuet_lang_mirror.Runtime.Vm.Collector.Mark.{Stands, IsClosed, mark-Ends}
use minuet_lang_mirror.Runtime.HeapStorage.Invariant.{IsValid, live, live-replicate}
use minuet_lang_mirror.Runtime.Vm.Engine.{Engine, ok}
use minuet_lang_mirror.Runtime.Vm.Collector.{contains, roots, children, mark, try_mark_and_sweep}
use minuet_lang_mirror.Runtime.Vm.Collector.Reach.{Holds, root, held, mark-Reaches}
use minuet_lang_mirror.Runtime.Vm.Collector.Sweep.{try_mark_and_sweep-fault, try_mark_and_sweep_all}
use minuet_lang_mirror.Tests.Heap.{many, list}

-- An engine with no registers in use.
abbrev idle : HeapStorage → Engine
idle h = record {
  heap = h;
  memory = [];
  call_frames = [];
  program_argv = none;
  call_frame_ptr = pos 0;
  rfi = pos 0;
  rip = pos 0;
  rbp = pos 0;
  rft = negsuc 0;
  rrd = pos 1;
  res = ok;
}

IsValid-is_ripe : (h : HeapStorage) → IsValid h → 512 ≤ live h.objects → is_ripe h ≡ true
unfolding is_ripe
IsValid-is_ripe h v crowded = ground (arith, v.scored)

abbrev half : (h : HeapStorage) × IsValid h × (live h.objects ≡ 512)
half = many 512 (omega arith)

try_mark_and_sweep-fault_example : try_mark_and_sweep 0 (idle half.0) ≡ fault bad_pointer
unfolding roots mark
try_mark_and_sweep-fault_example =
    try_mark_and_sweep-fault (idle half.0) 0 [] [] half.1
      (IsValid-is_ripe half.0 half.1 (omega (arith, half.2))) refl refl (omega (arith, half.2))

-- A heap with one object less than it can hold, and one more list in it, at the address `.0`.
abbrev almost : (h : HeapStorage) × IsValid h × (live h.objects ≡ 1023)
almost = many 1023 (omega arith)

abbrev full : (p : Addr) × (h : HeapStorage) × Created almost.0 list p h
full =
    let (p, h, made, c) =
      try_create_value-Created almost.0 list almost.1 (omega (arith, almost.2)) in
    (p, h, c)

-- An engine whose one register refers to that list.
abbrev rooted : Engine
rooted = record (idle full.1) { memory = sequence full.0 ∷ []; rft = pos 0 }

rooted-marks : mark 1 full.1 [] (full.0 ∷ []) ≡ done (full.0 ∷ [])
unfolding mark load items is_sequence_object children
rooted-marks = rw full.2.holds refl

try_mark_and_sweep_all_example :
    (h : HeapStorage) × (try_mark_and_sweep 1 rooted ≡ done (record rooted { heap = h }))
    × IsValid h
    × (live h.objects ≡ 0)
unfolding roots
try_mark_and_sweep_all_example =
    let count : live full.1.objects ≡ 1024 = omega (arith, full.2.one_more, almost.2) in
    try_mark_and_sweep_all rooted 1 (full.0 ∷ []) (full.0 ∷ []) full.2.valid
      (IsValid-is_ripe full.1 full.2.valid (omega (arith, count))) refl rooted-marks count

-- A list that contains itself.
abbrev knot : HeapValue
knot = sequence_value (record { items = sequence 0 ∷ []; length = 1; frozen = false })

abbrev knotted : HeapStorage
knotted = created empty_heap [] 1 0 knot

knotted-IsValid : IsValid knotted
knotted-IsValid =
    IsValid-created empty_heap empty_heap-IsValid [] 1 0 knot refl (omega arith) (omega arith)
      (omega arith) (omega (arith, live-replicate 1024)) tt tt tt

knot-Stands : Stands knotted 0
unfolding load
knot-Stands = (knot, refl)

knotted-IsClosed : IsClosed knotted
unfolding IsClosed load items
knotted-IsClosed p o loaded = elim (Bool-cases (p == 0)) [
  | inr other ↦ absurd (ground (arith, other, loaded))
  | inl here ↦
      let same : knot ≡ o = ground (arith, here, loaded) in
      rw (← same) ((λ q e. let zero_is : 0 ≡ q = cc in rw (← zero_is) knot-Stands), tt)
]

mark-Ends_example : (n : ℕ) × (marked : List Addr) × (mark n knotted [] (0 ∷ []) ≡ done marked)
mark-Ends_example = mark-Ends knotted knotted-IsValid knotted-IsClosed (0 ∷ []) (knot-Stands, tt)

-- A list that holds another list.
abbrev outer : HeapValue
outer = sequence_value (record { items = sequence 1 ∷ []; length = 1; frozen = false })

abbrev nested : HeapStorage
nested =
    created (created empty_heap [] 1 0 outer) [] 2 1
      (sequence_value (record { items = []; length = 0; frozen = true }))

outer-Holds : Holds nested 0 1
unfolding load items is_sequence_object
outer-Holds = record {
  object = outer;
  place = 0;
  value = sequence 1;
  stands = refl;
  list = refl;
  at_place = refl;
  pointer = refl;
}

mark-Reaches_example : contains (1 ∷ 0 ∷ []) 1 ≡ true
unfolding mark load items is_sequence_object children
mark-Reaches_example =
    mark-Reaches 2 nested (0 ∷ []) (1 ∷ 0 ∷ []) 1 refl (held {q = 0} (root refl) outer-Holds)
