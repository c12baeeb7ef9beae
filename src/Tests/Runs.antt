-- ===== src/Tests/Runs.antt =====
-- A program of src/runtime/vm.cpp that adds two constants and returns, from start to end.
use minuet_lang_mirror.Base.{
  zero, suc, ◌≡◌, refl, arith, [], ◌∷◌, ℤ, pos, negsuc, true, none, some, Run, done, fault, wrap16,
  fits_int32, ◌+ℤ◌, ◌-ℤ◌,
}
use minuet_lang_mirror.Base.Ensures.{returned}
use minuet_lang_mirror.Runtime.Values.{dud, int32}
use minuet_lang_mirror.Runtime.HeapStorage.{
  empty_heap, from_preloads, preload, allocate_id, place, try_create_value, is_ripe, load, store_at,
}
use minuet_lang_mirror.Runtime.HeapStorage.Preloads.{empty_heap-IsValid}
use minuet_lang_mirror.Runtime.Bytecode.{
  Program, Instruction, Opcode, arg_mode_of, mode_0, mode_1, mode_2,
}
use minuet_lang_mirror.Runtime.FastValue.{plus_values}
use minuet_lang_mirror.Runtime.FastValue.Compare.{equal, values_equal}
use minuet_lang_mirror.Runtime.FastValue.Assign.{plus_assign, write_through}
use minuet_lang_mirror.Runtime.Vm.Engine.{
  EngineConfig, Engine, Machine, NativeProc, ok, user_error, read_reg, write_reg, finish_with,
  fetch_value,
}
use minuet_lang_mirror.Runtime.Objects
use minuet_lang_mirror.Runtime.Objects.Sequence
use minuet_lang_mirror.Runtime.Objects.Text
use minuet_lang_mirror.Runtime.Vm.Arithmetic.{handle_load_const, handle_add, assign_op, fetch_pair}
use minuet_lang_mirror.Runtime.Vm.Control.{handle_ret}
use minuet_lang_mirror.Runtime.Vm.Collector.{try_mark_and_sweep}
use minuet_lang_mirror.Runtime.Vm.Dispatch.{
  blank_frame, load_arguments, start, execute, step, running, run_loop, exit_status, run,
}
use minuet_lang_mirror.Runtime.Vm.Invariant.{IsSound}
use minuet_lang_mirror.Runtime.Vm.Invariant.Execution.{NativesSound, run_loop-IsSound}
use minuet_lang_mirror.Runtime.Vm.Startup.{start-run_loop-IsSound}
use minuet_lang_mirror.Tests.Values.{whole_doubles}

abbrev instruction : Opcode → ℤ → ℤ → ℤ → Instruction
instruction op a b c = record { arg_0 = a; arg_1 = b; arg_2 = c; metadata = 2184; op = op }

abbrev program : Program
program = record {
  constants = int32 (pos 40) ∷ int32 (pos 2) ∷ [];
  pre_objects = [];
  chunks =
      (instruction Opcode.load_const (pos 0) (pos 0) (pos 0)
        ∷ instruction Opcode.load_const (pos 1) (pos 1) (pos 0)
        ∷ instruction Opcode.add (pos 0) (pos 0) (pos 1)
        ∷ instruction Opcode.ret (pos 0) (pos 0) (pos 0)
        ∷ [])
      ∷ [];
  entry_id = some (pos 0);
}

-- A native procedure that does nothing and succeeds.
abbrev succeed : NativeProc
succeed e arg_count = done (true, e)

abbrev machine : Machine
machine = record { program = program; natives = succeed ∷ []; doubles = whole_doubles; depth = 4 }

abbrev config : EngineConfig
config = record { reg_buffer_limit = 4; call_frame_max = 2 }

abbrev ready : Engine
ready = record {
  heap = empty_heap;
  memory = dud ∷ dud ∷ dud ∷ dud ∷ [];
  call_frames = blank_frame ∷ blank_frame ∷ [];
  program_argv = none;
  call_frame_ptr = pos 0;
  rfi = pos 0;
  rip = pos 0;
  rbp = pos 0;
  rft = pos 0;
  rrd = pos 1;
  res = ok;
}

ready-IsSound : IsSound 4 2 ready
ready-IsSound = record {
  heap_valid = empty_heap-IsValid;
  registers_kept = refl;
  frames_kept = refl;
}

abbrev result_of : Run Engine → Engine
result_of (done e) = e
result_of (fault f) = ready

succeed-Sound : NativesSound 4 2 machine
succeed-Sound (pos zero) arg_count proc e found s =
    let same : succeed ≡ proc = cc in rw (← same) (returned s)
succeed-Sound (pos (suc i)) arg_count proc e found s = absurd (cc)
succeed-Sound (negsuc i) arg_count proc e found s = absurd (cc)

abbrev finished : Engine
finished = result_of (run_loop machine 5 ready)

ran : run_loop machine 5 ready ≡ done finished
unfolding run_loop step running execute handle_load_const handle_add assign_op fetch_pair handle_ret
    try_mark_and_sweep fetch_value mode_0 mode_1 mode_2 arg_mode_of read_reg write_reg finish_with
    plus_assign write_through plus_values is_ripe wrap16 fits_int32 ◌+ℤ◌ ◌-ℤ◌
ran = refl

run_loop-IsSound_example : IsSound 4 2 finished
run_loop-IsSound_example = run_loop-IsSound machine succeed-Sound 5 ready finished ready-IsSound ran

abbrev started : Engine
started = result_of (start config program true ((pos b'a' ∷ []) ∷ []))

start_lem : start config program true ((pos b'a' ∷ []) ∷ []) ≡ done started
unfolding start from_preloads preload try_create_value allocate_id place load_arguments wrap16 load
    store_at Objects.push_value Sequence.push_value Text.of_chars
start_lem = refl

ran_from_start : run_loop machine 5 started ≡ done (result_of (run_loop machine 5 started))
unfolding run_loop step running execute handle_load_const handle_add assign_op fetch_pair handle_ret
    try_mark_and_sweep fetch_value mode_0 mode_1 mode_2 arg_mode_of read_reg write_reg finish_with
    plus_assign write_through plus_values is_ripe wrap16 fits_int32 ◌+ℤ◌ ◌-ℤ◌ start from_preloads
    preload try_create_value allocate_id place load_arguments load store_at Objects.push_value
    Sequence.push_value Text.of_chars
ran_from_start = refl

start-run_loop-IsSound_example :
    IsSound 4 2 started × IsSound 4 2 (result_of (run_loop machine 5 started))
start-run_loop-IsSound_example =
    start-run_loop-IsSound config machine true ((pos b'a' ∷ []) ∷ []) 5 started
      (result_of (run_loop machine 5 started)) (omega arith) succeed-Sound start_lem ran_from_start

-- The first register holds 42, which is not zero.
ended : run machine 5 ready ≡ done user_error
unfolding run run_loop step running execute handle_load_const handle_add assign_op fetch_pair
    handle_ret try_mark_and_sweep fetch_value mode_0 mode_1 mode_2 arg_mode_of read_reg write_reg
    finish_with plus_assign write_through plus_values is_ripe wrap16 fits_int32 ◌+ℤ◌ ◌-ℤ◌
    exit_status equal values_equal
ended = refl

ended_later : run machine 9 ready ≡ done user_error
unfolding run run_loop step running execute handle_load_const handle_add assign_op fetch_pair
    handle_ret try_mark_and_sweep fetch_value mode_0 mode_1 mode_2 arg_mode_of read_reg write_reg
    finish_with plus_assign write_through plus_values is_ripe wrap16 fits_int32 ◌+ℤ◌ ◌-ℤ◌
    exit_status equal values_equal
ended_later = refl
