-- ===== src/Runtime/Vm/Invariant/Execution.antt =====
-- The invariant of the engine and the loop of `Engine::operator()` (src/runtime/vm.cpp).
use minuet_lang_mirror.Base.{
  ℕ, zero, suc, ◌≡◌, refl, ℤ, pos, ◌+ℤ◌, Bool, true, false, [], done, if◌then◌else◌, not, read_at,
  length,
}
use minuet_lang_mirror.Base.Ensures
use minuet_lang_mirror.Base.Ensures.{Ensures, returned, faulted}
use minuet_lang_mirror.Runtime.HeapStorage.{is_ripe}
use minuet_lang_mirror.Runtime.FastValue.{truthy}
use minuet_lang_mirror.Runtime.Bytecode.{Opcode, Instruction, mode_0}
use minuet_lang_mirror.Runtime.Vm.Engine.{
  Engine, Machine, NativeProc, op_error, next_ip, read_reg, fetch_value,
}
use minuet_lang_mirror.Runtime.Vm.Arithmetic.{value, handle_inc, handle_dec}
use minuet_lang_mirror.Runtime.Vm.Collector.{try_mark_and_sweep, roots, register_count, mark}
use minuet_lang_mirror.Runtime.Vm.Collector.Sweep.{sweep-Ensures}
use minuet_lang_mirror.Runtime.Vm.Control.{
  handle_jmp_if, handle_jmp_else, handle_call, handle_native_call, handle_ret, saved_frame,
  restored,
}
use minuet_lang_mirror.Runtime.Vm.Dispatch.{execute, step, running, run_loop}
use minuet_lang_mirror.Runtime.Vm.Invariant.{
  IsSound, Sound, with_heap, next_ip-IsSound, write_at-size,
}
use minuet_lang_mirror.Runtime.Vm.Invariant.Handlers
use minuet_lang_mirror.Runtime.Vm.Invariant.Computation

try_mark_and_sweep-Sound :
    {registers frames : ℕ} (e : Engine) (n : ℕ)
    → IsSound registers frames e
    → Sound registers frames (try_mark_and_sweep n e)
unfolding try_mark_and_sweep
try_mark_and_sweep-Sound e n s = Ensures.if_Ensures (not (is_ripe e.heap)) (returned s) (
    Ensures.after (roots (register_count e.rft) e.memory) λ frontier.
      Ensures.after (mark n e.heap [] frontier) λ live.
        Ensures.bind (sweep-Ensures (length e.heap.objects) 0 e.heap s.heap_valid)
          λ h v. returned (with_heap e h s v))

module _ {registers frames : ℕ} (e : Engine) (s : IsSound registers frames e) where
  -- A change of the special registers alone.
  kept :
      (e' : Engine)
      → e'.heap ≡ e.heap
      → e'.memory ≡ e.memory
      → e'.call_frames ≡ e.call_frames
      → IsSound registers frames e'
  kept e' h m f = record {
    heap_valid = rw h s.heap_valid;
    registers_kept = rw m s.registers_kept;
    frames_kept = rw f s.frames_kept;
  }

  handle_jmp_if-Sound :
      (m : Machine) (reg dest : ℤ) → Sound registers frames (handle_jmp_if m e reg dest)
  unfolding handle_jmp_if
  handle_jmp_if-Sound m reg dest = Ensures.after (read_reg e reg) λ v. jumped (truthy m.doubles v)
    where
      jumped :
          (b : Bool)
          → Sound registers frames (done (if b then record e { rip = dest } else next_ip e))
      jumped true = returned (kept _ refl refl refl)
      jumped false = returned (next_ip-IsSound e s)

  handle_jmp_else-Sound :
      (m : Machine) (reg dest : ℤ) → Sound registers frames (handle_jmp_else m e reg dest)
  unfolding handle_jmp_else
  handle_jmp_else-Sound m reg dest =
      Ensures.after (read_reg e reg) λ v. jumped (not (truthy m.doubles v))
    where
      jumped :
          (b : Bool)
          → Sound registers frames (done (if b then record e { rip = dest } else next_ip e))
      jumped true = returned (kept _ refl refl refl)
      jumped false = returned (next_ip-IsSound e s)

  handle_call-Sound :
      (func_id arg_count : ℤ) → Sound registers frames (handle_call e func_id arg_count)
  unfolding handle_call
  handle_call-Sound func_id arg_count =
      Ensures.bind
        (write_at-size frames e.call_frames (e.call_frame_ptr +ℤ pos 1) (saved_frame e)
          s.frames_kept)
        λ ys size. returned (record {
          heap_valid = s.heap_valid;
          registers_kept = s.registers_kept;
          frames_kept = size;
        })

  handle_ret-Sound :
      (m : Machine) (metadata : ℕ) (src_id : ℤ)
      → Sound registers frames (handle_ret m e metadata src_id)
  unfolding handle_ret
  handle_ret-Sound m metadata src_id =
      Ensures.after (fetch_value m.program e (mode_0 metadata) src_id) λ v_opt.
        Ensures.after (value v_opt) λ v.
          Ensures.bind (write_at-size registers e.memory e.rbp v s.registers_kept) λ memory size.
            Ensures.after (read_at e.call_frames e.call_frame_ptr) λ frame.
              try_mark_and_sweep-Sound (restored (record e { memory = memory }) frame) m.depth
                (record {
                  heap_valid = s.heap_valid;
                  registers_kept = size;
                  frames_kept = s.frames_kept;
                })

-- The native procedures of a machine keep the engine sound.
abbrev pub NativesSound : ℕ → ℕ → Machine → Type 0
NativesSound registers frames m =
    (id arg_count : ℤ) (proc : NativeProc) (e : Engine)
    → read_at m.natives id ≡ done proc
    → IsSound registers frames e
    → Ensures (λ x. IsSound registers frames x.1) (proc e arg_count)

module _ {registers frames : ℕ} (m : Machine) (natives : NativesSound registers frames m) where
  handle_native_call-Sound :
      (e : Engine) (native_id arg_count : ℤ)
      → IsSound registers frames e
      → Sound registers frames (handle_native_call m e native_id arg_count)
  unfolding handle_native_call
  handle_native_call-Sound e native_id arg_count s =
      Ensures.bind (Ensures.itself (read_at m.natives native_id)) λ proc found.
        Ensures.bind (natives native_id arg_count proc e found s)
          λ x s'. returned (kept x.1 s' _ refl refl refl)

  -- Every instruction keeps the engine sound.
  execute-Sound :
      (e : Engine) (op : Opcode) (i : Instruction)
      → IsSound registers frames e
      → Sound registers frames (execute m e op i)
  unfolding execute handle_inc handle_dec
  execute-Sound e Opcode.nop i s = returned (next_ip-IsSound e s)
  execute-Sound e Opcode.make_str i s = Handlers.handle_make_str-Sound e s m i.arg_0 i.arg_1
  execute-Sound e Opcode.make_seq i s = Handlers.handle_make_seq-Sound e s i.arg_0
  execute-Sound e Opcode.seq_obj_push i s =
      Handlers.handle_seq_obj_push-Sound e s m i.metadata i.arg_0 i.arg_1 i.arg_2
  execute-Sound e Opcode.seq_obj_pop i s =
      Handlers.handle_seq_obj_pop-Sound e s i.arg_0 i.arg_1 i.arg_2
  execute-Sound e Opcode.seq_obj_get i s =
      Handlers.handle_seq_obj_get-Sound e s m i.metadata i.arg_0 i.arg_1 i.arg_2
  execute-Sound e Opcode.frz_seq_obj i s = Handlers.handle_frz_seq_obj-Sound e s i.arg_0
  execute-Sound e Opcode.load_const i s = Handlers.handle_load_const-Sound e s m i.arg_0 i.arg_1
  execute-Sound e Opcode.mov i s = Computation.handle_mov-Sound e s m i.metadata i.arg_0 i.arg_1
  execute-Sound e Opcode.neg i s = Computation.handle_neg-Sound e s m i.arg_0
  execute-Sound e Opcode.inc i s = Handlers.fail_with-Sound e s op_error
  execute-Sound e Opcode.dec i s = Handlers.fail_with-Sound e s op_error
  execute-Sound e Opcode.mul i s =
      Computation.handle_mul-Sound e s m i.metadata i.arg_0 i.arg_1 i.arg_2
  execute-Sound e Opcode.div i s =
      Computation.handle_div-Sound e s m i.metadata i.arg_0 i.arg_1 i.arg_2
  execute-Sound e Opcode.modulo i s =
      Computation.handle_mod-Sound e s m i.metadata i.arg_0 i.arg_1 i.arg_2
  execute-Sound e Opcode.add i s =
      Computation.handle_add-Sound e s m i.metadata i.arg_0 i.arg_1 i.arg_2
  execute-Sound e Opcode.sub i s =
      Computation.handle_sub-Sound e s m i.metadata i.arg_0 i.arg_1 i.arg_2
  execute-Sound e Opcode.equ i s =
      Computation.handle_cmp_eq-Sound e s m i.metadata i.arg_0 i.arg_1 i.arg_2
  execute-Sound e Opcode.neq i s =
      Computation.handle_cmp_ne-Sound e s m i.metadata i.arg_0 i.arg_1 i.arg_2
  execute-Sound e Opcode.lt i s =
      Computation.handle_cmp_lt-Sound e s m i.metadata i.arg_0 i.arg_1 i.arg_2
  execute-Sound e Opcode.gt i s =
      Computation.handle_cmp_gt-Sound e s m i.metadata i.arg_0 i.arg_1 i.arg_2
  execute-Sound e Opcode.lte i s =
      Computation.handle_cmp_lte-Sound e s m i.metadata i.arg_0 i.arg_1 i.arg_2
  execute-Sound e Opcode.gte i s =
      Computation.handle_cmp_gte-Sound e s m i.metadata i.arg_0 i.arg_1 i.arg_2
  execute-Sound e Opcode.jump i s = returned (kept e s _ refl refl refl)
  execute-Sound e Opcode.jump_if i s = handle_jmp_if-Sound e s m i.arg_0 i.arg_1
  execute-Sound e Opcode.jump_else i s = handle_jmp_else-Sound e s m i.arg_0 i.arg_1
  execute-Sound e Opcode.call i s = handle_call-Sound e s i.arg_0 i.arg_1
  execute-Sound e Opcode.ret i s = handle_ret-Sound e s m i.metadata i.arg_0
  execute-Sound e Opcode.native_call i s = handle_native_call-Sound e i.arg_0 i.arg_1 s
  execute-Sound e _ i s = Handlers.fail_with-Sound e s op_error

  step-Sound : (e : Engine) → IsSound registers frames e → Sound registers frames (step m e)
  unfolding step
  step-Sound e s =
      Ensures.after (read_at m.program.chunks e.rfi)
        λ chunk. Ensures.after (read_at chunk e.rip) λ i. execute-Sound e i.op i s

  run_loop-Sound :
      (n : ℕ) (e : Engine) → IsSound registers frames e → Sound registers frames (run_loop m n e)
  unfolding run_loop
  run_loop-Sound zero e s = faulted
  run_loop-Sound (suc n) e s =
      Ensures.if_Ensures (running e) (Ensures.bind (step-Sound e s) λ e' s'. run_loop-Sound n e' s')
        (returned s)

  -- Where the native procedures keep the engine sound, so does the whole run of a program, whatever its
  -- instructions are: from a valid heap, a run that ends has a valid heap, as many registers and as many
  -- call frames as at the start.
  pub run_loop-IsSound :
      (n : ℕ) (e e' : Engine)
      → IsSound registers frames e
      → run_loop m n e ≡ done e'
      → IsSound registers frames e'
  run_loop-IsSound n e e' s ran = Ensures.holds_of_done (run_loop-Sound n e s) ran
