-- ===== src/Runtime/Vm/Invariant/Handlers.antt =====
-- The invariant of the engine and the handlers of src/runtime/vm.cpp that reach into objects.
use minuet_lang_mirror.Base.{ℕ, ℤ, Option, none, some, Run, done, ◌>>=◌, read_at}
use minuet_lang_mirror.Base.Ensures
use minuet_lang_mirror.Base.Ensures.{Ensures, returned, faulted}
use minuet_lang_mirror.Runtime.Values.{
  Addr, item, FastValue, val_ref, string, sequence, SequenceOpPolicy, HeapValue, sequence_value,
  string_value, to_object_ptr,
}
use minuet_lang_mirror.Runtime.Objects
use minuet_lang_mirror.Runtime.Objects.Sequence
use minuet_lang_mirror.Runtime.Objects.Text
use minuet_lang_mirror.Runtime.HeapStorage.{load, store_at, try_create_value}
use minuet_lang_mirror.Runtime.HeapStorage.Preserved.{try_create_value-Ensures, store_at-Ensures}
use minuet_lang_mirror.Runtime.FastValue.Print.{object_to_string, to_string}
use minuet_lang_mirror.Runtime.Bytecode.{constant, mode_1, mode_2}
use minuet_lang_mirror.Runtime.Vm.Engine.{
  Engine, Machine, ExecStatus, mem_error, arg_error, next_ip, fail_with, read_reg, fetch_value,
  write_reg,
}
use minuet_lang_mirror.Runtime.Vm.Objects.{
  handle_make_str, handle_make_seq, handle_seq_obj_push, handle_seq_obj_pop, handle_seq_obj_get,
  handle_frz_seq_obj, slot_object, scalar_of, has_position, position, push_to, push_fetched,
  pop_from, policy_of, get_from, get_at, freeze_in,
}
use minuet_lang_mirror.Runtime.Vm.Arithmetic.{finish_fetched, handle_load_const}
use minuet_lang_mirror.Runtime.Vm.Invariant.{
  IsSound, Sound, with_heap, next_ip-IsSound, write_reg-Sound, finish_with-Sound,
}

module _ {registers frames : ℕ} (e : Engine) (s : IsSound registers frames e) where
  -- An error changes the status alone.
  pub fail_with-Sound : (status : ExecStatus) → Sound registers frames (done (fail_with status e))
  fail_with-Sound status = returned (record {
    heap_valid = s.heap_valid;
    registers_kept = s.registers_kept;
    frames_kept = s.frames_kept;
  })

  create-Sound :
      (o : HeapValue) (dest : ℤ) (as_value : Addr → FastValue)
      → Sound registers frames (
          try_create_value e.heap o >>= λ x.
          write_reg (record e { heap = x.1 }) dest (as_value x.0) >>= λ e'. done (next_ip e'))
  create-Sound o dest as_value =
      Ensures.bind (try_create_value-Ensures e.heap o s.heap_valid) λ x v.
        Ensures.bind
          (write_reg-Sound (record e { heap = x.1 }) dest (as_value x.0) (with_heap e x.1 s v))
          λ e' s'. returned (next_ip-IsSound e' s')

  pub handle_make_seq-Sound : (dest : ℤ) → Sound registers frames (handle_make_seq e dest)
  unfolding handle_make_seq
  handle_make_seq-Sound dest = create-Sound (sequence_value Sequence.empty) dest sequence

  pub handle_make_str-Sound :
      (m : Machine) (dest id : ℤ) → Sound registers frames (handle_make_str m e dest id)
  unfolding handle_make_str
  handle_make_str-Sound m dest id = Ensures.after (read_at e.heap.objects id) λ slot.
      Ensures.after (slot_object e.heap slot) λ o.
        Ensures.after (object_to_string (to_string m.doubles m.depth e.heap) o)
          λ text. create-Sound (string_value (Text.of_chars text)) dest string

  store-Sound :
      (p : Addr) (o : HeapValue) (f : Engine → Run Engine)
      → ((e' : Engine) → IsSound registers frames e' → Sound registers frames (f e'))
      → Sound registers frames (store_at e.heap p o >>= λ h. f (record e { heap = h }))
  store-Sound p o f next =
      Ensures.bind (store_at-Ensures e.heap p o s.heap_valid)
        λ h v. next (record e { heap = h }) (with_heap e h s v)

  step_on : (e' : Engine) → IsSound registers frames e' → Sound registers frames (done (next_ip e'))
  step_on e' s' = returned (next_ip-IsSound e' s')

  write-Sound :
      (dest : ℤ) (v : FastValue) (e' : Engine)
      → IsSound registers frames e'
      → Sound registers frames (write_reg e' dest v >>= λ e''. done (next_ip e''))
  write-Sound dest v e' s' = Ensures.bind (write_reg-Sound e' dest v s') step_on

  push_to-Sound :
      (target : Option Addr) (v : FastValue) → Sound registers frames (push_to e target v)
  unfolding push_to
  push_to-Sound none v = fail_with-Sound mem_error
  push_to-Sound (some p) v =
      Ensures.after (load e.heap p)
        λ o. store-Sound p (Objects.push_value o v) (λ e'. done (next_ip e')) step_on

  push_fetched-Sound :
      (dest : ℤ) (v : Option FastValue) → Sound registers frames (push_fetched e dest v)
  unfolding push_fetched
  push_fetched-Sound dest none = fail_with-Sound mem_error
  push_fetched-Sound dest (some v) =
      Ensures.after (read_reg e dest) λ target. push_to-Sound (to_object_ptr target) v

  pub handle_seq_obj_push-Sound :
      (m : Machine) (metadata : ℕ) (dest src mode : ℤ)
      → Sound registers frames (handle_seq_obj_push m e metadata dest src mode)
  unfolding handle_seq_obj_push
  handle_seq_obj_push-Sound m metadata dest src mode =
      Ensures.after (fetch_value m.program e (mode_1 metadata) src) λ v. push_fetched-Sound dest v

  pop_from-Sound :
      (dest : ℤ) (mode : SequenceOpPolicy) (source : Option Addr)
      → Sound registers frames (pop_from e dest mode source)
  unfolding pop_from
  pop_from-Sound dest mode none = fail_with-Sound mem_error
  pop_from-Sound dest mode (some p) = Ensures.after (load e.heap p) λ o.
      store-Sound p (Objects.pop_value o mode).1
        (λ e'. write_reg e' dest (Objects.pop_value o mode).0 >>= λ e''. done (next_ip e''))
        (write-Sound dest (Objects.pop_value o mode).0)

  pub handle_seq_obj_pop-Sound :
      (dest src mode : ℤ) → Sound registers frames (handle_seq_obj_pop e dest src mode)
  unfolding handle_seq_obj_pop
  handle_seq_obj_pop-Sound dest src mode =
      Ensures.after (read_reg e src)
        λ source. pop_from-Sound dest (policy_of mode) (to_object_ptr source)

  get_from-Sound :
      (dest index : ℤ) (source : Option Addr)
      → Sound registers frames (get_from e dest index source)
  unfolding get_from
  get_from-Sound dest index none = fail_with-Sound mem_error
  get_from-Sound dest index (some p) = Ensures.after (load e.heap p) λ o.
      Ensures.if_Ensures (has_position o index)
        (write-Sound dest (val_ref (item p (position index))) e s) (fail_with-Sound mem_error)

  get_at-Sound :
      (dest src : ℤ) (index : Option ℤ) → Sound registers frames (get_at e dest src index)
  unfolding get_at
  get_at-Sound dest src none = fail_with-Sound arg_error
  get_at-Sound dest src (some index) =
      Ensures.after (read_reg e src) λ source. get_from-Sound dest index (to_object_ptr source)

  pub handle_seq_obj_get-Sound :
      (m : Machine) (metadata : ℕ) (dest src id : ℤ)
      → Sound registers frames (handle_seq_obj_get m e metadata dest src id)
  unfolding handle_seq_obj_get
  handle_seq_obj_get-Sound m metadata dest src id =
      Ensures.after (fetch_value m.program e (mode_2 metadata) id)
        λ v. get_at-Sound dest src (scalar_of v)

  freeze_in-Sound : (target : Option Addr) → Sound registers frames (freeze_in e target)
  unfolding freeze_in
  freeze_in-Sound none = fail_with-Sound mem_error
  freeze_in-Sound (some p) =
      Ensures.after (load e.heap p)
        λ o. store-Sound p (Objects.freeze o) (λ e'. done (next_ip e')) step_on

  pub handle_frz_seq_obj-Sound : (dest : ℤ) → Sound registers frames (handle_frz_seq_obj e dest)
  unfolding handle_frz_seq_obj
  handle_frz_seq_obj-Sound dest =
      Ensures.after (read_reg e dest) λ target. freeze_in-Sound (to_object_ptr target)

  finish_fetched-Sound :
      (dest : ℤ) (v : Option FastValue) → Sound registers frames (finish_fetched e dest v)
  unfolding finish_fetched
  finish_fetched-Sound dest none = fail_with-Sound mem_error
  finish_fetched-Sound dest (some v) = finish_with-Sound e dest v s

  pub handle_load_const-Sound :
      (m : Machine) (dest id : ℤ) → Sound registers frames (handle_load_const m e dest id)
  unfolding handle_load_const
  handle_load_const-Sound m dest id =
      Ensures.after (fetch_value m.program e constant id) λ v. finish_fetched-Sound dest v
