-- ===== src/Intrinsics/Strings.antt =====
-- src/mintrinsics/mnl_strings.cpp: native procedures on strings, and `native_get_argv` of
-- src/mintrinsics/mnl_utils.cpp.
use minuet_lang_mirror.Base.{
  ℤ, pos, negsuc, ◌+ℤ◌, Bool, not, ◌||◌, Option, none, some, List, if◌then◌else◌, Run, done, fault,
  ◌>>=◌, bad_pointer, out_of_range, overflow, eq_ℤ, leb_ℤ, fits_int32, take, drop, length, leb,
}
use minuet_lang_mirror.Runtime.Values.{
  Addr, string, sequence, HeapValue, sequence_value, string_value, to_object_ptr, to_scalar,
}
use minuet_lang_mirror.Runtime.Objects.{is_sequence_object}
use minuet_lang_mirror.Runtime.Objects.Text
use minuet_lang_mirror.Runtime.HeapStorage.{load, try_create_value}
use minuet_lang_mirror.Runtime.Vm.Engine.{Engine}
use minuet_lang_mirror.Runtime.Vm.Control.{handle_native_fn_access, handle_native_fn_access_argv}
use minuet_lang_mirror.Intrinsics.Lists.{refuse, answer, size_of, append_to}

-- `native_strlen`
unfoldable pub native_strlen : Engine → ℤ → Run (Bool × Engine)
unfolding handle_native_fn_access size_of
native_strlen e argc = do
  arg_0 ← handle_native_fn_access e argc (pos 0)
  size_of e argc (to_object_ptr arg_0)

unfoldable pub join_strings : Engine → Option Addr → Option Addr → Run (Bool × Engine)
unfolding load is_sequence_object append_to
join_strings e (some target) (some source) = do
  o ← load e.heap target
  s ← load e.heap source
  let appended = append_to e target o source s
  if is_sequence_object s || is_sequence_object o then refuse e else appended
join_strings e _ _ = refuse e

-- `native_strcat`
unfoldable pub native_strcat : Engine → ℤ → Run (Bool × Engine)
unfolding handle_native_fn_access join_strings
native_strcat e argc = do
  source_arg ← handle_native_fn_access e argc (pos 1)
  target_arg ← handle_native_fn_access e argc (pos 0)
  join_strings e (to_object_ptr target_arg) (to_object_ptr source_arg)

-- `substr(begin, count)`, whose arguments become `std::size_t`: a negative place is behind every
-- text, and a negative count is larger than every text. A place behind the text throws.
unfoldable pub substr : List ℤ → ℤ → ℤ → Run (List ℤ)
substr text (pos begin) (pos count) =
    if leb begin (length text) then done (take count (drop begin text)) else fault out_of_range
substr text (pos begin) (negsuc count) =
    if leb begin (length text) then done (drop begin text) else fault out_of_range
substr text (negsuc begin) count = fault out_of_range

-- The slice must end in front of the string's last character.
unfoldable pub slice_of : Engine → ℤ → ℤ → ℤ → HeapValue → Run (Bool × Engine)
unfolding Text.to_string Text.of_chars substr try_create_value answer ◌+ℤ◌ fits_int32
slice_of e argc slice_begin slice_len (sequence_value s) = refuse e
slice_of e argc slice_begin slice_len (string_value s) =
    let slice_end = slice_begin +ℤ slice_len in
    let sliced = do
      text ← substr (Text.to_string s) slice_begin slice_len
      (p, heap) ← try_create_value e.heap (string_value (Text.of_chars text))
      answer (record e { heap = heap }) (string p) argc
    in if not (fits_int32 slice_end)
      then fault overflow
      else if leb_ℤ (pos s.length) slice_end
      then refuse e
      else sliced

unfoldable pub slice_at : Engine → ℤ → ℤ → ℤ → Option Addr → Run (Bool × Engine)
unfolding load slice_of
slice_at e argc slice_begin slice_len none = refuse e
slice_at e argc slice_begin slice_len (some p) =
    let sliced = load e.heap p >>= slice_of e argc slice_begin slice_len in
    if eq_ℤ slice_len (pos 0) then refuse e else sliced

abbrev pub scalar_or_zero : Option ℤ → ℤ
scalar_or_zero none = pos 0
scalar_or_zero (some z) = z

-- `native_substr`
unfoldable pub native_substr : Engine → ℤ → Run (Bool × Engine)
unfolding handle_native_fn_access to_scalar slice_at
native_substr e argc = do
  source_arg ← handle_native_fn_access e argc (pos 0)
  begin_arg ← handle_native_fn_access e argc (pos 1)
  len_arg ← handle_native_fn_access e argc (pos 2)
  slice_at e argc (scalar_or_zero (to_scalar begin_arg)) (scalar_or_zero (to_scalar len_arg))
      (to_object_ptr source_arg)

unfoldable pub argv_answer : Engine → ℤ → Option Addr → Run (Bool × Engine)
unfolding answer
argv_answer e argc none = fault bad_pointer
argv_answer e argc (some p) = answer e (sequence p) argc

-- `native_get_argv`; the engine's constructor always sets the pointer.
unfoldable pub native_get_argv : Engine → ℤ → Run (Bool × Engine)
unfolding argv_answer
native_get_argv e argc = argv_answer e argc (handle_native_fn_access_argv e)
