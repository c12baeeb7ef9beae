-- ===== src/Tests/Handlers.antt =====
-- Single instructions of src/runtime/vm.cpp on an engine with four registers.
use minuet_lang_mirror.Base.{
  ℕ, ◌≡◌, refl, arith, [], ◌∷◌, pos, true, false, none, some, done, fits_int32, ◌+ℤ◌, ◌-ℤ◌, ◌*ℤ◌,
  wrap16,
}
use minuet_lang_mirror.Runtime.Values.{item, int32, boolean, val_ref}
use minuet_lang_mirror.Runtime.Objects.{items}
use minuet_lang_mirror.Runtime.HeapStorage.{load, deref, is_ripe}
use minuet_lang_mirror.Runtime.Bytecode.{arg_mode_of, mode_0, mode_1, mode_2}
use minuet_lang_mirror.Runtime.Vm.Engine.{Engine, Machine, ok, arg_error, read_reg, fetch_value}
use minuet_lang_mirror.Runtime.Vm.Arithmetic.{handle_neg}
use minuet_lang_mirror.Runtime.Vm.Arithmetic.Moves.{
  handler_of, result_of, by_mul, ItemChanged, arithmetic-ItemChanged, handle_neg_boolean,
}
use minuet_lang_mirror.Runtime.Vm.Control.{handle_ret, saved_frame}
use minuet_lang_mirror.Runtime.Vm.Control.Calls.{called, Returned, handle_ret-Returned}
use minuet_lang_mirror.Runtime.Vm.Dispatch.{blank_frame}
use minuet_lang_mirror.Tests.Heap.{one_list}
use minuet_lang_mirror.Tests.Values.{whole_doubles}

abbrev pub machine : Machine
machine = record {
  program = record {
    constants = int32 (pos 1) ∷ [];
    pre_objects = [];
    chunks = [];
    entry_id = some (pos 0);
  };
  natives = [];
  doubles = whole_doubles;
  depth = 2;
}

-- Registers: a reference to the integer 6, the integer 7, a Boolean, a reference to the Boolean.
abbrev pub engine : Engine
engine = record {
  heap = one_list;
  memory = val_ref (item 0 0) ∷ int32 (pos 7) ∷ boolean true ∷ val_ref (item 0 1) ∷ [];
  call_frames = blank_frame ∷ blank_frame ∷ [];
  program_argv = none;
  call_frame_ptr = pos 0;
  rfi = pos 0;
  rip = pos 3;
  rbp = pos 0;
  rft = pos 3;
  rrd = pos 1;
  res = ok;
}

-- The modes of all three arguments are registers.
abbrev registers : ℕ
registers = 2184

-- The product of 6 and 7.
arithmetic-ItemChanged_example :
    (e' : Engine) × (handler_of by_mul machine engine registers (pos 2) (pos 0) (pos 1) ≡ done e')
    × ItemChanged engine (pos 2) (item 0 0) (int32 (result_of by_mul (pos 6) (pos 7))) e'
unfolding fetch_value mode_1 mode_2 arg_mode_of read_reg deref load items fits_int32 ◌+ℤ◌ ◌*ℤ◌
arithmetic-ItemChanged_example =
    arithmetic-ItemChanged machine 0 refl engine registers (pos 2) (pos 0) (pos 1) (pos 6) (pos 7)
      {old = boolean true} {r = item 0 0} refl refl refl refl by_mul refl

handle_neg_boolean_example :
    (e' : Engine) × (handle_neg machine engine (pos 2) ≡ done e')
    × (e'.res ≡ arg_error)
    × (e'.rip ≡ pos 3)
    × (read_reg e' (pos 2) ≡ done (boolean false))
unfolding read_reg ◌+ℤ◌
handle_neg_boolean_example = handle_neg_boolean machine 0 refl engine (pos 2) true refl

-- The callee's state in front of its `ret`.
abbrev callee : Engine
callee = called engine (pos 0) (pos 2) (blank_frame ∷ saved_frame engine ∷ [])

handle_ret-Returned_example :
    (e' : Engine) × (handle_ret machine callee registers (pos 0) ≡ done e')
    × Returned engine callee (pos 2) (boolean true) e'
unfolding fetch_value mode_0 arg_mode_of read_reg ◌+ℤ◌ ◌-ℤ◌ wrap16 is_ripe
handle_ret-Returned_example =
    handle_ret-Returned machine engine callee registers 1 (pos 0) (pos 2) (boolean true)
      (boolean true) refl (omega arith) refl refl refl refl refl refl refl
