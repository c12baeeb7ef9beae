-- ===== src/Intrinsics/Lists.antt =====
-- src/mintrinsics/mnl_lists.cpp: native procedures on lists. A procedure gets the engine and the
-- count of its arguments, and says whether it succeeded.
use minuet_lang_mirror.Base.{
  ℤ, pos, Bool, true, false, not, ◌&&◌, ◌==◌, Option, none, some, List, [], ◌∷◌, if◌then◌else◌, Run,
  done, fault, ◌>>=◌, bad_pointer,
}
use minuet_lang_mirror.Runtime.Values.{
  Addr, FastValue, int32, SequenceOpPolicy, front, back, HeapValue, to_object_ptr, is_sequence,
  is_none, is_empty,
}
use minuet_lang_mirror.Runtime.Objects.{
  items, get_size, is_frozen, is_sequence_object, push_value, pop_value,
}
use minuet_lang_mirror.Runtime.HeapStorage.{load, store_at}
use minuet_lang_mirror.Runtime.Vm.Engine.{Engine}
use minuet_lang_mirror.Runtime.Vm.Control.{handle_native_fn_access, handle_native_fn_return}

abbrev pub refuse : Engine → Run (Bool × Engine)
refuse e = done (false, e)

unfoldable pub answer : Engine → FastValue → ℤ → Run (Bool × Engine)
unfolding handle_native_fn_return
answer e result argc = do e' ← handle_native_fn_return e result argc; done (true, e')

unfoldable pub size_of : Engine → ℤ → Option Addr → Run (Bool × Engine)
unfolding load get_size answer
size_of e argc none = refuse e
size_of e argc (some p) = do o ← load e.heap p; answer e (int32 (pos (get_size o))) argc

-- `native_len_of`
unfoldable pub native_len_of : Engine → ℤ → Run (Bool × Engine)
unfolding handle_native_fn_access size_of
native_len_of e argc = do
  arg_0 ← handle_native_fn_access e argc (pos 0)
  size_of e argc (to_object_ptr arg_0)

-- `get_tag() == ObjectTag::sequence && !is_frozen()`
unfoldable pub is_open : HeapValue → Bool
unfolding is_sequence_object is_frozen
is_open o = is_sequence_object o && not (is_frozen o)

unfoldable pub push_back_to : Engine → ℤ → FastValue → FastValue → Option Addr → Run (Bool × Engine)
unfolding load store_at is_open push_value answer
push_back_to e argc target v none = refuse e
push_back_to e argc target v (some p) = do
  o ← load e.heap p
  let pushed = do
    heap ← store_at e.heap p (push_value o v)
    answer (record e { heap = heap }) target argc
  if is_open o then pushed else refuse e

-- `native_list_push_back`
unfoldable pub native_list_push_back : Engine → ℤ → Run (Bool × Engine)
unfolding handle_native_fn_access push_back_to
native_list_push_back e argc = do
  target_arg ← handle_native_fn_access e argc (pos 0)
  new_item_arg ← handle_native_fn_access e argc (pos 1)
  let pushed = push_back_to e argc target_arg new_item_arg (to_object_ptr target_arg)
  if is_sequence target_arg then pushed else refuse e

-- An item that is `dud` is taken from the list, and then refused.
unfoldable pub pop_of : Engine → ℤ → SequenceOpPolicy → Option Addr → Run (Bool × Engine)
unfolding load store_at is_open pop_value answer
pop_of e argc mode none = refuse e
pop_of e argc mode (some p) = do
  o ← load e.heap p
  let (old, o') = pop_value o mode
  let popped = do
    heap ← store_at e.heap p o'
    let e' = record e { heap = heap }
    let answered = answer e' old argc
    if not (is_none old) then answered else refuse e'
  if is_open o then popped else refuse e

unfoldable pub native_pop : SequenceOpPolicy → Engine → ℤ → Run (Bool × Engine)
unfolding handle_native_fn_access pop_of
native_pop mode e argc = do
  target_arg ← handle_native_fn_access e argc (pos 0)
  let popped = pop_of e argc mode (to_object_ptr target_arg)
  if is_sequence target_arg then popped else refuse e

-- `native_list_pop_back` and `native_list_pop_front`
unfoldable pub native_list_pop_back : Engine → ℤ → Run (Bool × Engine)
unfolding native_pop
native_list_pop_back = native_pop back

unfoldable pub native_list_pop_front : Engine → ℤ → Run (Bool × Engine)
unfolding native_pop
native_list_pop_front = native_pop front

-- The loop that pushes each item of the source.
unfoldable pub push_items : HeapValue → List FastValue → HeapValue
unfolding push_value
push_items o [] = o
push_items o (v ∷ vs) = push_items (push_value o v) vs

-- A list that is pushed to itself grows the vector that the loop walks.
unfoldable pub append_to : Engine → Addr → HeapValue → Addr → HeapValue → Run (Bool × Engine)
unfolding store_at push_items items
append_to e target o source s = do
  let appended = do
    heap ← store_at e.heap target (push_items o (items s))
    done (true, record e { heap = heap })
  if target == source && not (is_empty (items s)) then fault bad_pointer else appended

unfoldable pub concat_objects : Engine → Option Addr → Option Addr → Run (Bool × Engine)
unfolding load is_open append_to
concat_objects e (some target) (some source) = do
  o ← load e.heap target
  s ← load e.heap source
  let appended = append_to e target o source s
  if is_open o then appended else refuse e
concat_objects e _ _ = refuse e

-- `native_list_concat`
unfoldable pub native_list_concat : Engine → ℤ → Run (Bool × Engine)
unfolding handle_native_fn_access concat_objects
native_list_concat e argc = do
  source_arg ← handle_native_fn_access e argc (pos 1)
  target_arg ← handle_native_fn_access e argc (pos 0)
  concat_objects e (to_object_ptr target_arg) (to_object_ptr source_arg)
