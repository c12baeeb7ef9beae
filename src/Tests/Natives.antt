-- ===== src/Tests/Natives.antt =====
-- The native procedures of src/mintrinsics on two lists and on a string.
use minuet_lang_mirror.Base.{
  ◌≡◌, ◌≢◌, refl, arith, List, [], ◌∷◌, pos, true, false, none, some, done, ◌+ℤ◌, ◌-ℤ◌, take, drop,
}
use minuet_lang_mirror.Runtime.Values.{
  Addr, FastValue, dud, int32, string, sequence, SequenceValue, StringValue, sequence_value,
  string_value,
}
use minuet_lang_mirror.Runtime.Objects.Text
use minuet_lang_mirror.Runtime.Objects.{get_size}
use minuet_lang_mirror.Runtime.HeapStorage.{HeapStorage, empty_heap, load}
use minuet_lang_mirror.Runtime.HeapStorage.Invariant.{IsValid, live-set-some, live-replicate}
use minuet_lang_mirror.Runtime.HeapStorage.Creation.{created, IsValid-created}
use minuet_lang_mirror.Runtime.HeapStorage.Preloads.{empty_heap-IsValid}
use minuet_lang_mirror.Runtime.Vm.Engine.{Engine, ok}
use minuet_lang_mirror.Runtime.Vm.Control.{
  native_slot, handle_native_fn_access, handle_native_fn_return,
}
use minuet_lang_mirror.Runtime.Vm.Invariant.{IsSound}
use minuet_lang_mirror.Intrinsics.Lists.{native_len_of, native_list_concat, size_of, answer}
use minuet_lang_mirror.Intrinsics.Strings.{native_substr}
use minuet_lang_mirror.Intrinsics.Sound.{len, intrinsic-IsSound}
use minuet_lang_mirror.Intrinsics.Concat.{joined, native_list_concat-joined}
use minuet_lang_mirror.Intrinsics.Slices.{Sliced, native_substr-Sliced}

abbrev engine_on : HeapStorage → List FastValue → Engine
engine_on h memory = record {
  heap = h;
  memory = memory;
  call_frames = [];
  program_argv = none;
  call_frame_ptr = pos 0;
  rfi = pos 0;
  rip = pos 0;
  rbp = pos 0;
  rft = pos 2;
  rrd = pos 1;
  res = ok;
}

abbrev numbers : SequenceValue
numbers = record { items = int32 (pos 1) ∷ int32 (pos 2) ∷ []; length = 2; frozen = false }

abbrev more : SequenceValue
more = record { items = int32 (pos 3) ∷ []; length = 1; frozen = true }

abbrev two_lists : HeapStorage
two_lists =
    created (created empty_heap [] 1 0 (sequence_value numbers)) [] 2 1 (sequence_value more)

abbrev calling : Engine
calling = engine_on two_lists (dud ∷ sequence 0 ∷ sequence 1 ∷ [])

native_list_concat-joined_example :
    (h : HeapStorage) × (native_list_concat calling (pos 2)
      ≡ done (true, record calling { heap = h }))
    × (h.store 0 ≡ some (sequence_value (joined numbers more)))
    × ((r : Addr) → r ≢ 0 → h.store r ≡ two_lists.store r)
unfolding handle_native_fn_access native_slot ◌+ℤ◌ ◌-ℤ◌
native_list_concat-joined_example =
    native_list_concat-joined calling (pos 2) 0 1 numbers more refl refl refl refl refl
      (omega arith)

abbrev greeting : StringValue
greeting = record {
  items = FastValue.chr8 (pos b'h') ∷ FastValue.chr8 (pos b'e') ∷ FastValue.chr8 (pos b'y') ∷ [];
  length = 3;
}

abbrev one_string : HeapStorage
one_string = created empty_heap [] 1 0 (string_value greeting)

one_string-IsValid : IsValid one_string
one_string-IsValid =
    IsValid-created empty_heap empty_heap-IsValid [] 1 0 (string_value greeting) refl (omega arith)
      (omega arith) (omega arith) (omega (arith, live-replicate 1024)) tt tt tt

abbrev slicing : Engine
slicing = engine_on one_string (string 0 ∷ int32 (pos 1) ∷ int32 (pos 1) ∷ [])

native_substr-Sliced_example :
    (e' : Engine) × (native_substr slicing (pos 3) ≡ done (true, e'))
    × Sliced slicing
        (native_slot slicing (pos 3) (pos 0))
        (take 1 (drop 1 (Text.to_string greeting)))
        e'
unfolding handle_native_fn_access native_slot ◌+ℤ◌ ◌-ℤ◌
native_substr-Sliced_example =
    native_substr-Sliced slicing (pos 3) 0 greeting 1 0 refl refl refl refl refl (omega arith)
      (omega arith) one_string-IsValid
      (omega (arith, live-set-some empty_heap.objects 0 0 refl, live-replicate 1024))

abbrev measured : Engine
measured = record (engine_on one_string (int32 (pos 3) ∷ int32 (pos 1) ∷ int32 (pos 1) ∷ [])) {
  rft = pos 2;
}

intrinsic-IsSound_example : IsSound 3 0 measured
unfolding native_len_of size_of answer load get_size handle_native_fn_access handle_native_fn_return
    native_slot ◌+ℤ◌ ◌-ℤ◌
intrinsic-IsSound_example =
    intrinsic-IsSound slicing measured native_len_of (pos 3) true len
      (record { heap_valid = one_string-IsValid; registers_kept = refl; frames_kept = refl }) refl
