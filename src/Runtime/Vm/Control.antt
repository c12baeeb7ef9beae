-- ===== src/Runtime/Vm/Control.antt =====
-- The handlers of src/runtime/vm.cpp that change the control flow, and the calling convention of
-- native procedures.
pub mod Calls
use minuet_lang_mirror.Base.{
  ℕ, ℤ, pos, ◌+ℤ◌, ◌-ℤ◌, wrap16, ltb_ℤ, Bool, not, Option, if◌then◌else◌, Run, done, fault, ◌>>=◌,
  read_at, write_at, none, some,
}
use minuet_lang_mirror.Runtime.Values.{Addr, FastValue}
use minuet_lang_mirror.Runtime.FastValue.{truthy}
use minuet_lang_mirror.Runtime.Bytecode.{mode_0}
use minuet_lang_mirror.Runtime.Vm.Engine.{
  Engine, Machine, CallFrame, ok, op_error, next_ip, fail_with, read_reg, fetch_value,
}
use minuet_lang_mirror.Runtime.Vm.Arithmetic.{value}
use minuet_lang_mirror.Runtime.Vm.Collector.{try_mark_and_sweep}

-- `handle_jmp_if`
unfoldable pub handle_jmp_if : Machine → Engine → ℤ → ℤ → Run Engine
unfolding read_reg truthy
handle_jmp_if m e check_reg dest_ip = do
  v ← read_reg e check_reg
  done (if truthy m.doubles v then record e { rip = dest_ip } else next_ip e)

-- `handle_jmp_else`
unfoldable pub handle_jmp_else : Machine → Engine → ℤ → ℤ → Run Engine
unfolding read_reg truthy
handle_jmp_else m e check_reg dest_ip = do
  v ← read_reg e check_reg
  done (if not (truthy m.doubles v) then record e { rip = dest_ip } else next_ip e)

-- The frame that `handle_call` saves.
abbrev pub saved_frame : Engine → CallFrame
saved_frame e = record {
  old_func_idx = e.rfi;
  old_func_ip = wrap16 (e.rip +ℤ pos 1);
  old_base_ptr = e.rbp;
  old_mem_top = e.rft;
  old_exec_status = e.res;
}

-- `handle_call`
unfoldable pub handle_call : Engine → ℤ → ℤ → Run Engine
unfolding ◌+ℤ◌ ◌-ℤ◌ wrap16
handle_call e func_id arg_count = do
  frames ← write_at e.call_frames (e.call_frame_ptr +ℤ pos 1) (saved_frame e)
  done (record e {
    call_frame_ptr = e.call_frame_ptr +ℤ pos 1;
    call_frames = frames;
    rrd = wrap16 (e.rrd +ℤ pos 1);
    rfi = func_id;
    rip = pos 0;
    rbp = e.rft -ℤ arg_count +ℤ pos 1;
  })

-- `handle_native_call`
unfoldable pub handle_native_call : Machine → Engine → ℤ → ℤ → Run Engine
handle_native_call m e native_id arg_count = do
  proc ← read_at m.natives native_id
  (succeeded, e') ← proc e arg_count
  done (next_ip (record e' { res = if succeeded then ok else op_error }))

-- The caller's registers come back from the frame.
abbrev pub restored : Engine → CallFrame → Engine
restored e f = record e {
  call_frame_ptr = e.call_frame_ptr -ℤ pos 1;
  rrd = wrap16 (e.rrd -ℤ pos 1);
  rfi = f.old_func_idx;
  rip = f.old_func_ip;
  rbp = f.old_base_ptr;
  rft = f.old_mem_top;
  res = f.old_exec_status;
}

-- `handle_ret`
unfoldable pub handle_ret : Machine → Engine → ℕ → ℤ → Run Engine
unfolding fetch_value mode_0 try_mark_and_sweep ◌-ℤ◌ wrap16
handle_ret m e metadata src_id = do
  ret_src_opt ← fetch_value m.program e (mode_0 metadata) src_id
  v ← value ret_src_opt
  memory ← write_at e.memory e.rbp v
  frame ← read_at e.call_frames e.call_frame_ptr
  try_mark_and_sweep m.depth (restored (record e { memory = memory }) frame)

-- `handle_native_fn_access_argv`
abbrev pub handle_native_fn_access_argv : Engine → Option Addr
handle_native_fn_access_argv e = e.program_argv

-- The register of argument `offset` of a native procedure.
unfoldable pub native_slot : Engine → ℤ → ℤ → ℤ
unfolding ◌+ℤ◌ ◌-ℤ◌
native_slot e arg_count offset =
    if ltb_ℤ (pos 0) arg_count
    then e.rft -ℤ arg_count +ℤ offset +ℤ pos 1
    else e.rft -ℤ arg_count +ℤ offset

-- `handle_native_fn_access`
unfoldable pub handle_native_fn_access : Engine → ℤ → ℤ → Run FastValue
unfolding native_slot
handle_native_fn_access e arg_count offset = read_at e.memory (native_slot e arg_count offset)

-- `handle_native_fn_return`
unfoldable pub handle_native_fn_return : Engine → FastValue → ℤ → Run Engine
unfolding native_slot
handle_native_fn_return e result arg_count = do
  memory ← write_at e.memory (native_slot e arg_count (pos 0)) result
  done (record e {
    memory = memory;
    rft = if ltb_ℤ (pos 0) arg_count then e.rft else e.rft +ℤ pos 1;
  })
