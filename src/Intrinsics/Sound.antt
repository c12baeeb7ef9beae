-- ===== src/Intrinsics/Sound.antt =====
-- The native procedures of src/mintrinsics/mnl_lists.cpp and mnl_strings.cpp, and the invariant of
-- the engine that calls them.
use minuet_lang_mirror.Base.{ℕ, ℤ, pos, ◌≡◌, Bool, Option, none, some, Run, done, ◌>>=◌}
use minuet_lang_mirror.Base.Ensures
use minuet_lang_mirror.Base.Ensures.{Ensures, returned, faulted, after, bind, if_Ensures}
use minuet_lang_mirror.Runtime.Values.{
  Addr, FastValue, int32, string, sequence, SequenceOpPolicy, front, back, HeapValue,
  sequence_value, string_value, to_object_ptr, to_scalar,
}
use minuet_lang_mirror.Runtime.Objects.{items, get_size, push_value, pop_value}
use minuet_lang_mirror.Runtime.Objects.Text
use minuet_lang_mirror.Runtime.HeapStorage.{HeapStorage, load, store_at}
use minuet_lang_mirror.Runtime.HeapStorage.Preserved.{try_create_value-Ensures, store_at-Ensures}
use minuet_lang_mirror.Runtime.Vm.Engine.{Engine, NativeProc}
use minuet_lang_mirror.Runtime.Vm.Control.{
  native_slot, handle_native_fn_access, handle_native_fn_return, handle_native_fn_access_argv,
}
use minuet_lang_mirror.Runtime.Vm.Invariant.{IsSound, with_heap, write_at-size}
use minuet_lang_mirror.Intrinsics.Lists.{
  answer, size_of, native_len_of, push_back_to, native_list_push_back, pop_of, native_pop,
  native_list_pop_back, native_list_pop_front, push_items, append_to, concat_objects,
  native_list_concat,
}
use minuet_lang_mirror.Intrinsics.Strings.{
  native_strlen, join_strings, native_strcat, substr, slice_of, slice_at, scalar_or_zero,
  native_substr, argv_answer, native_get_argv,
}

-- The outcome of a native procedure leaves a sound engine.
abbrev pub SoundResult : ℕ → ℕ → Run (Bool × Engine) → Type 0
SoundResult registers frames = Ensures (λ x. IsSound registers frames x.1)

module _ {registers frames : ℕ} where
  module _ (e : Engine) (s : IsSound registers frames e) (argc : ℤ) where
    answer-Sound : (v : FastValue) → SoundResult registers frames (answer e v argc)
    unfolding answer handle_native_fn_return
    answer-Sound v =
        bind {P = λ e'. IsSound registers frames e'}
          (bind (write_at-size registers e.memory (native_slot e argc (pos 0)) v s.registers_kept)
            (λ ys size. returned (record {
              heap_valid = s.heap_valid;
              registers_kept = size;
              frames_kept = s.frames_kept;
            })))
          (λ e' s'. returned s')

    size_of-Sound : (p : Option Addr) → SoundResult registers frames (size_of e argc p)
    unfolding size_of
    size_of-Sound none = returned s
    size_of-Sound (some p) = after (load e.heap p) (λ o. answer-Sound (int32 (pos (get_size o))))

  module _ (e : Engine) (s : IsSound registers frames e) (argc : ℤ) where
    stored-Sound :
        (p : Addr) (o : HeapValue) (f : HeapStorage → Run (Bool × Engine))
        → ((h : HeapStorage)
            → IsSound registers frames (record e { heap = h })
            → SoundResult registers frames (f h))
        → SoundResult registers frames (store_at e.heap p o >>= f)
    stored-Sound p o f next =
        bind (store_at-Ensures e.heap p o s.heap_valid) (λ h v. next h (with_heap e h s v))

    push_back_to-Sound :
        (target v : FastValue) (p : Option Addr)
        → SoundResult registers frames (push_back_to e argc target v p)
    unfolding push_back_to
    push_back_to-Sound target v none = returned s
    push_back_to-Sound target v (some p) = after (load e.heap p) (λ o.
        if_Ensures _
          (stored-Sound p (push_value o v) _
            (λ h s'. answer-Sound (record e { heap = h }) s' argc target))
          (returned s))

    pop_of-Sound :
        (mode : SequenceOpPolicy) (p : Option Addr)
        → SoundResult registers frames (pop_of e argc mode p)
    unfolding pop_of
    pop_of-Sound mode none = returned s
    pop_of-Sound mode (some p) = after (load e.heap p) (λ o.
        if_Ensures _
          (stored-Sound p (pop_value o mode).1 _ (λ h s'.
            if_Ensures _ (answer-Sound (record e { heap = h }) s' argc (pop_value o mode).0)
              (returned s')))
          (returned s))

    append_to-Sound :
        (p : Addr) (o : HeapValue) (q : Addr) (t : HeapValue)
        → SoundResult registers frames (append_to e p o q t)
    unfolding append_to
    append_to-Sound p o q t =
        if_Ensures _ faulted (stored-Sound p (push_items o (items t)) _ (λ h s'. returned s'))

    concat_objects-Sound : (p q : Option Addr) → SoundResult registers frames (concat_objects e p q)
    unfolding concat_objects
    concat_objects-Sound none q = returned s
    concat_objects-Sound (some p) none = returned s
    concat_objects-Sound (some p) (some q) =
        after (load e.heap p)
          (λ o. after (load e.heap q) (λ t. if_Ensures _ (append_to-Sound p o q t) (returned s)))

    join_strings-Sound : (p q : Option Addr) → SoundResult registers frames (join_strings e p q)
    unfolding join_strings
    join_strings-Sound none q = returned s
    join_strings-Sound (some p) none = returned s
    join_strings-Sound (some p) (some q) =
        after (load e.heap p)
          (λ o. after (load e.heap q) (λ t. if_Ensures _ (returned s) (append_to-Sound p o q t)))

    slice_of-Sound :
        (begin len : ℤ) (o : HeapValue) → SoundResult registers frames (slice_of e argc begin len o)
    unfolding slice_of
    slice_of-Sound begin len (sequence_value t) = returned s
    slice_of-Sound begin len (string_value t) = if_Ensures _ faulted (
        if_Ensures _ (returned s) (
          after (substr (Text.to_string t) begin len) (λ text.
            bind (try_create_value-Ensures e.heap (string_value (Text.of_chars text)) s.heap_valid)
              (λ x v.
                answer-Sound (record e { heap = x.1 }) (with_heap e x.1 s v) argc (string x.0)))))

    slice_at-Sound :
        (begin len : ℤ) (p : Option Addr)
        → SoundResult registers frames (slice_at e argc begin len p)
    unfolding slice_at
    slice_at-Sound begin len none = returned s
    slice_at-Sound begin len (some p) =
        if_Ensures _ (returned s) (after (load e.heap p) (λ o. slice_of-Sound begin len o))

    argv_answer-Sound : (p : Option Addr) → SoundResult registers frames (argv_answer e argc p)
    unfolding argv_answer
    argv_answer-Sound none = faulted
    argv_answer-Sound (some p) = answer-Sound e s argc (sequence p)

module _ {registers frames : ℕ} (e : Engine) (s : IsSound registers frames e) (argc : ℤ) where
  with_argument :
      (offset : ℤ) (f : FastValue → Run (Bool × Engine))
      → ((v : FastValue) → SoundResult registers frames (f v))
      → SoundResult registers frames (handle_native_fn_access e argc offset >>= f)
  with_argument offset f next = after (handle_native_fn_access e argc offset) next

  native_pop-Sound :
      (mode : SequenceOpPolicy) → SoundResult registers frames (native_pop mode e argc)
  unfolding native_pop
  native_pop-Sound mode =
      with_argument (pos 0) _
        (λ v. if_Ensures _ (pop_of-Sound e s argc mode (to_object_ptr v)) (returned s))

  native_list_push_back-Sound : SoundResult registers frames (native_list_push_back e argc)
  unfolding native_list_push_back
  native_list_push_back-Sound = with_argument (pos 0) _ (λ v.
      with_argument (pos 1) _
        (λ w. if_Ensures _ (push_back_to-Sound e s argc v w (to_object_ptr v)) (returned s)))

  native_substr-Sound : SoundResult registers frames (native_substr e argc)
  unfolding native_substr
  native_substr-Sound = with_argument (pos 0) _ (λ v. with_argument (pos 1) _ (λ b.
      with_argument (pos 2) _ (λ n.
        slice_at-Sound e s argc (scalar_or_zero (to_scalar b)) (scalar_or_zero (to_scalar n))
          (to_object_ptr v))))

-- The native procedures on lists and strings, and the one that gives the program's arguments.
pub data IsIntrinsic : NativeProc → Type 0 where
  len : IsIntrinsic native_len_of
  list_push_back : IsIntrinsic native_list_push_back
  list_pop_back : IsIntrinsic native_list_pop_back
  list_pop_front : IsIntrinsic native_list_pop_front
  list_concat : IsIntrinsic native_list_concat
  strlen : IsIntrinsic native_strlen
  strcat : IsIntrinsic native_strcat
  substring : IsIntrinsic native_substr
  get_argv : IsIntrinsic native_get_argv

pub intrinsic-Sound :
    {registers frames : ℕ} (e : Engine) (proc : NativeProc) (argc : ℤ)
    → IsIntrinsic proc
    → IsSound registers frames e
    → SoundResult registers frames (proc e argc)
unfolding native_len_of native_list_pop_back native_list_pop_front native_list_concat native_strlen
    native_strcat native_get_argv
intrinsic-Sound e _ argc len s =
    with_argument e s argc (pos 0) _ (λ v. size_of-Sound e s argc (to_object_ptr v))
intrinsic-Sound e _ argc list_push_back s = native_list_push_back-Sound e s argc
intrinsic-Sound e _ argc list_pop_back s = native_pop-Sound e s argc back
intrinsic-Sound e _ argc list_pop_front s = native_pop-Sound e s argc front
intrinsic-Sound e _ argc list_concat s = with_argument e s argc (pos 1) _ (λ v.
    with_argument e s argc (pos 0) _
      (λ w. concat_objects-Sound e s argc (to_object_ptr w) (to_object_ptr v)))
intrinsic-Sound e _ argc strlen s =
    with_argument e s argc (pos 0) _ (λ v. size_of-Sound e s argc (to_object_ptr v))
intrinsic-Sound e _ argc strcat s = with_argument e s argc (pos 1) _ (λ v.
    with_argument e s argc (pos 0) _
      (λ w. join_strings-Sound e s argc (to_object_ptr w) (to_object_ptr v)))
intrinsic-Sound e _ argc substring s = native_substr-Sound e s argc
intrinsic-Sound e _ argc get_argv s = argv_answer-Sound e s argc (handle_native_fn_access_argv e)

-- Each of the nine native procedures, called on an engine with a valid heap whatever its registers
-- hold, leaves a valid heap, as many registers and as many call frames, if it comes back at all.
pub intrinsic-IsSound :
    {registers frames : ℕ} (e e' : Engine) (proc : NativeProc) (argc : ℤ) (succeeded : Bool)
    → IsIntrinsic proc
    → IsSound registers frames e
    → proc e argc ≡ done (succeeded, e')
    → IsSound registers frames e'
intrinsic-IsSound e e' proc argc succeeded i s ran =
    Ensures.holds_of_done (intrinsic-Sound e proc argc i s) ran
