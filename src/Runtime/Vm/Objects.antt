-- ===== src/Runtime/Vm/Objects.antt =====
-- The handlers of src/runtime/vm.cpp that make heap objects and reach into them.
use minuet_lang_mirror.Base.{
  ℕ, ℤ, pos, negsuc, ◌-◌, ◌%◌, Bool, Option, none, some, if◌then◌else◌, ◌==◌, Run, done, fault,
  ◌>>=◌, read_at, bad_pointer,
}
use minuet_lang_mirror.Runtime.Values.{
  Addr, item, FastValue, val_ref, string, sequence, SequenceOpPolicy, front, back, HeapValue,
  sequence_value, string_value, to_object_ptr, to_scalar,
}
use minuet_lang_mirror.Runtime.Objects
use minuet_lang_mirror.Runtime.Objects.Sequence
use minuet_lang_mirror.Runtime.Objects.Text
use minuet_lang_mirror.Runtime.HeapStorage.{HeapStorage, load, store_at, try_create_value}
use minuet_lang_mirror.Runtime.FastValue.Print.{object_to_string, to_string}
use minuet_lang_mirror.Runtime.Bytecode.{mode_1, mode_2}
use minuet_lang_mirror.Runtime.Vm.Engine.{
  Engine, Machine, mem_error, arg_error, next_ip, fail_with, read_reg, write_reg, fetch_value,
}

-- The object in a slot, through its pointer.
abbrev pub slot_object : HeapStorage → Option Addr → Run HeapValue
slot_object h none = fault bad_pointer
slot_object h (some p) = load h p

-- `handle_make_str`
unfoldable pub handle_make_str : Machine → Engine → ℤ → ℤ → Run Engine
unfolding load to_string object_to_string try_create_value Text.of_chars write_reg
handle_make_str m e dest_reg str_obj_id = do
  slot ← read_at e.heap.objects str_obj_id
  o ← slot_object e.heap slot
  text ← object_to_string (to_string m.doubles m.depth e.heap) o
  (p, heap) ← try_create_value e.heap (string_value (Text.of_chars text))
  e' ← write_reg (record e { heap = heap }) dest_reg (string p)
  done (next_ip e')

-- `handle_make_seq`
unfoldable pub handle_make_seq : Engine → ℤ → Run Engine
unfolding try_create_value write_reg
handle_make_seq e dest_reg = do
  (p, heap) ← try_create_value e.heap (sequence_value Sequence.empty)
  e' ← write_reg (record e { heap = heap }) dest_reg (sequence p)
  done (next_ip e')

unfoldable pub push_to : Engine → Option Addr → FastValue → Run Engine
unfolding load store_at Objects.push_value
push_to e none v = done (fail_with mem_error e)
push_to e (some p) v = do
  o ← load e.heap p
  heap ← store_at e.heap p (Objects.push_value o v)
  done (next_ip (record e { heap = heap }))

unfoldable pub push_fetched : Engine → ℤ → Option FastValue → Run Engine
unfolding read_reg push_to
push_fetched e dest none = done (fail_with mem_error e)
push_fetched e dest (some v) = do target ← read_reg e dest; push_to e (to_object_ptr target) v

-- `handle_seq_obj_push`, which does not look at its mode argument.
unfoldable pub handle_seq_obj_push : Machine → Engine → ℕ → ℤ → ℤ → ℤ → Run Engine
unfolding fetch_value mode_1 push_fetched
handle_seq_obj_push m e metadata dest src_id mode = do
  src_value_opt ← fetch_value m.program e (mode_1 metadata) src_id
  push_fetched e dest src_value_opt

-- The low byte of an argument.
abbrev low_byte : ℤ → ℕ
low_byte (pos n) = n % 256
low_byte (negsuc n) = 255 - n % 256

-- `static_cast<SequenceOpPolicy>`, as it is tested: anything but `back` acts as `front`.
unfoldable pub policy_of : ℤ → SequenceOpPolicy
policy_of mode = if low_byte mode == 1 then back else front

unfoldable pub pop_from : Engine → ℤ → SequenceOpPolicy → Option Addr → Run Engine
unfolding load store_at Objects.pop_value write_reg
pop_from e dest mode none = done (fail_with mem_error e)
pop_from e dest mode (some p) = do
  o ← load e.heap p
  let popped = Objects.pop_value o mode
  heap ← store_at e.heap p popped.1
  e' ← write_reg (record e { heap = heap }) dest popped.0
  done (next_ip e')

-- `handle_seq_obj_pop`
unfoldable pub handle_seq_obj_pop : Engine → ℤ → ℤ → ℤ → Run Engine
unfolding read_reg policy_of pop_from
handle_seq_obj_pop e dest src_id mode = do
  source ← read_reg e src_id
  pop_from e dest (policy_of mode) (to_object_ptr source)

-- A position as `std::size_t`: a negative one is larger than every vector.
abbrev pub has_position : HeapValue → ℤ → Bool
has_position o (pos i) = Objects.has_value o i
has_position o (negsuc i) = Bool.false

abbrev pub position : ℤ → ℕ
position (pos i) = i
position (negsuc i) = 0

unfoldable pub get_from : Engine → ℤ → ℤ → Option Addr → Run Engine
unfolding load Objects.has_value write_reg
get_from e dest index none = done (fail_with mem_error e)
get_from e dest index (some p) = do
  o ← load e.heap p
  let found = do e' ← write_reg e dest (val_ref (item p (position index))); done (next_ip e')
  if has_position o index then found else done (fail_with mem_error e)

unfoldable pub get_at : Engine → ℤ → ℤ → Option ℤ → Run Engine
unfolding read_reg get_from
get_at e dest src_id none = done (fail_with arg_error e)
get_at e dest src_id (some index) = do
  source ← read_reg e src_id
  get_from e dest index (to_object_ptr source)

abbrev pub scalar_of : Option FastValue → Option ℤ
scalar_of none = none
scalar_of (some v) = to_scalar v

-- `handle_seq_obj_get`: the register gets a reference to the item.
unfoldable pub handle_seq_obj_get : Machine → Engine → ℕ → ℤ → ℤ → ℤ → Run Engine
unfolding fetch_value mode_2 get_at to_scalar
handle_seq_obj_get m e metadata dest src_id pos_value_id = do
  pos_value_opt ← fetch_value m.program e (mode_2 metadata) pos_value_id
  get_at e dest src_id (scalar_of pos_value_opt)

unfoldable pub freeze_in : Engine → Option Addr → Run Engine
unfolding load store_at Objects.freeze
freeze_in e none = done (fail_with mem_error e)
freeze_in e (some p) = do
  o ← load e.heap p
  heap ← store_at e.heap p (Objects.freeze o)
  done (next_ip (record e { heap = heap }))

-- `handle_frz_seq_obj`
unfoldable pub handle_frz_seq_obj : Engine → ℤ → Run Engine
unfolding read_reg freeze_in
handle_frz_seq_obj e dest = do target ← read_reg e dest; freeze_in e (to_object_ptr target)
