-- ===== src/Runtime/Vm/Dispatch.antt =====
-- `Engine::Engine` and `Engine::operator()` of src/runtime/vm.cpp.
pub mod Results
use minuet_lang_mirror.Base.{
  ℕ, zero, suc, ℤ, pos, negsuc, ltb_ℤ, wrap16, Bool, true, false, ◌&&◌, Option, none, some, List,
  [], ◌∷◌, replicate, if◌then◌else◌, Run, done, fault, ◌>>=◌, no_fuel, read_at, write_at,
}
use minuet_lang_mirror.Runtime.Values.{
  Addr, FastValue, dud, int32, string, HeapValue, sequence_value, string_value,
}
use minuet_lang_mirror.Runtime.Objects.Sequence
use minuet_lang_mirror.Runtime.Objects.Text
use minuet_lang_mirror.Runtime.Objects
use minuet_lang_mirror.Runtime.HeapStorage.{
  HeapStorage, from_preloads, try_create_value, load, store_at,
}
use minuet_lang_mirror.Runtime.FastValue.Compare.{equal}
use minuet_lang_mirror.Runtime.Bytecode
use minuet_lang_mirror.Runtime.Bytecode.{Opcode, Instruction, Program}
use minuet_lang_mirror.Runtime.Vm.Engine.{
  ExecStatus, ok, setup_error, op_error, user_error, is_ok, EngineConfig, CallFrame, Engine,
  Machine, next_ip, fail_with,
}
use minuet_lang_mirror.Runtime.Vm.Objects.{
  handle_make_str, handle_make_seq, handle_seq_obj_push, handle_seq_obj_pop, handle_seq_obj_get,
  handle_frz_seq_obj,
}
use minuet_lang_mirror.Runtime.Vm.Arithmetic.{
  handle_load_const, handle_mov, handle_neg, handle_inc, handle_dec, handle_mul, handle_div,
  handle_mod, handle_add, handle_sub,
}
use minuet_lang_mirror.Runtime.Vm.Comparison.{
  handle_cmp_eq, handle_cmp_ne, handle_cmp_lt, handle_cmp_gt, handle_cmp_lte, handle_cmp_gte,
}
use minuet_lang_mirror.Runtime.Vm.Control.{
  handle_jmp_if, handle_jmp_else, handle_call, handle_native_call, handle_ret,
}

abbrev pub blank_frame : CallFrame
blank_frame = record {
  old_func_idx = pos 0;
  old_func_ip = pos 0;
  old_base_ptr = pos 0;
  old_mem_top = pos 0;
  old_exec_status = ok;
}

-- Each program argument becomes a string object, and is pushed to the sequence at `argv`.
unfoldable pub load_arguments : Addr → List (List ℤ) → HeapStorage → Run HeapStorage
unfolding try_create_value load store_at Objects.push_value Text.of_chars
load_arguments argv [] h = done h
load_arguments argv (arg ∷ args) h = do
  (p, h') ← try_create_value h (string_value (Text.of_chars arg))
  o ← load h' argv
  h'' ← store_at h' argv (Objects.push_value o (string p))
  load_arguments argv args h''

abbrev entry_or_none : Option ℤ → ℤ
entry_or_none none = negsuc 0
entry_or_none (some id) = id

-- The constructor of `Engine`; the flag says whether a table of native procedures was passed.
unfoldable pub start : EngineConfig → Program → Bool → List (List ℤ) → Run Engine
unfolding from_preloads try_create_value load_arguments wrap16
start config prgm has_natives program_args = do
  h ← from_preloads prgm.pre_objects
  (argv, h') ← try_create_value h (sequence_value Sequence.empty)
  h'' ← load_arguments argv program_args h'
  let entry = entry_or_none prgm.entry_id
  frames ← write_at (replicate config.call_frame_max blank_frame) (pos 0) blank_frame
  done (record {
    heap = h'';
    memory = replicate config.reg_buffer_limit dud;
    call_frames = frames;
    program_argv = some argv;
    call_frame_ptr = pos 0;
    rfi = wrap16 entry;
    rip = pos 0;
    rbp = pos 0;
    rft = pos 0;
    rrd = pos 1;
    res = if ltb_ℤ (negsuc 0) entry && has_natives then ok else setup_error;
  })

-- The `switch` of the loop.
unfoldable pub execute : Machine → Engine → Opcode → Instruction → Run Engine
execute m e Opcode.nop i = done (next_ip e)
execute m e Opcode.make_str i = handle_make_str m e i.arg_0 i.arg_1
execute m e Opcode.make_seq i = handle_make_seq e i.arg_0
execute m e Opcode.seq_obj_push i = handle_seq_obj_push m e i.metadata i.arg_0 i.arg_1 i.arg_2
execute m e Opcode.seq_obj_pop i = handle_seq_obj_pop e i.arg_0 i.arg_1 i.arg_2
execute m e Opcode.seq_obj_get i = handle_seq_obj_get m e i.metadata i.arg_0 i.arg_1 i.arg_2
execute m e Opcode.frz_seq_obj i = handle_frz_seq_obj e i.arg_0
execute m e Opcode.load_const i = handle_load_const m e i.arg_0 i.arg_1
execute m e Opcode.mov i = handle_mov m e i.metadata i.arg_0 i.arg_1
execute m e Opcode.neg i = handle_neg m e i.arg_0
execute m e Opcode.inc i = handle_inc e i.arg_0
execute m e Opcode.dec i = handle_dec e i.arg_0
execute m e Opcode.mul i = handle_mul m e i.metadata i.arg_0 i.arg_1 i.arg_2
execute m e Opcode.div i = handle_div m e i.metadata i.arg_0 i.arg_1 i.arg_2
execute m e Opcode.modulo i = handle_mod m e i.metadata i.arg_0 i.arg_1 i.arg_2
execute m e Opcode.add i = handle_add m e i.metadata i.arg_0 i.arg_1 i.arg_2
execute m e Opcode.sub i = handle_sub m e i.metadata i.arg_0 i.arg_1 i.arg_2
execute m e Opcode.equ i = handle_cmp_eq m e i.metadata i.arg_0 i.arg_1 i.arg_2
execute m e Opcode.neq i = handle_cmp_ne m e i.metadata i.arg_0 i.arg_1 i.arg_2
execute m e Opcode.lt i = handle_cmp_lt m e i.metadata i.arg_0 i.arg_1 i.arg_2
execute m e Opcode.gt i = handle_cmp_gt m e i.metadata i.arg_0 i.arg_1 i.arg_2
execute m e Opcode.lte i = handle_cmp_lte m e i.metadata i.arg_0 i.arg_1 i.arg_2
execute m e Opcode.gte i = handle_cmp_gte m e i.metadata i.arg_0 i.arg_1 i.arg_2
execute m e Opcode.jump i = done (record e { rip = i.arg_0 })
execute m e Opcode.jump_if i = handle_jmp_if m e i.arg_0 i.arg_1
execute m e Opcode.jump_else i = handle_jmp_else m e i.arg_0 i.arg_1
execute m e Opcode.call i = handle_call e i.arg_0 i.arg_1
execute m e Opcode.ret i = handle_ret m e i.metadata i.arg_0
execute m e Opcode.native_call i = handle_native_call m e i.arg_0 i.arg_1
execute m e _ i = done (fail_with op_error e)

-- One round of the loop.
unfoldable pub step : Machine → Engine → Run Engine
unfolding execute
step m e = do chunk ← read_at m.program.chunks e.rfi; i ← read_at chunk e.rip; execute m e i.op i

-- The condition of the loop.
unfoldable pub running : Engine → Bool
running e = ltb_ℤ (pos 0) e.rrd && is_ok e.res

-- The loop, with fuel for its rounds.
unfoldable pub run_loop : Machine → ℕ → Engine → Run Engine
unfolding step running
run_loop m zero e = fault no_fuel
run_loop m (suc n) e = let rest = step m e >>= run_loop m n in if running e then rest else done e

-- `m_memory[0] == FastValue {0}` behind a loop that ended well.
unfoldable pub exit_status : Machine → Engine → Run ExecStatus
unfolding equal
exit_status m e = do
  v ← read_at e.memory (pos 0)
  zero_result ← equal m.doubles m.depth e.heap v (int32 (pos 0))
  done (if zero_result then ok else user_error)

-- `Engine::operator()`
unfoldable pub run : Machine → ℕ → Engine → Run ExecStatus
unfolding run_loop exit_status handle_make_str handle_make_seq handle_seq_obj_push
    handle_seq_obj_pop handle_seq_obj_get handle_frz_seq_obj handle_load_const handle_mov handle_neg
    handle_inc handle_dec handle_mul handle_div handle_mod handle_add handle_sub handle_cmp_eq
    handle_cmp_ne handle_cmp_lt handle_cmp_gt handle_cmp_lte handle_cmp_gte handle_jmp_if
    handle_jmp_else handle_call handle_native_call handle_ret
run m rounds e = do
  e' ← run_loop m rounds e
  let checked_exit = exit_status m e'
  if is_ok e'.res then checked_exit else done e'.res
