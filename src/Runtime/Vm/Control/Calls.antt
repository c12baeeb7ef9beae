-- ===== src/Runtime/Vm/Control/Calls.antt =====
-- A call and the return from it, `handle_call` and `handle_ret` of src/runtime/vm.cpp.
use minuet_lang_mirror.Base.{
  ℕ, ◌≡◌, refl, sym, ap, ◌∙◌, ℤ, pos, ◌+ℤ◌, ◌-ℤ◌, wrap16, -ℤ_cancel, wrap16_back, ◌<◌, false, some,
  List, done, fault, read_at, Written, write_at-Written, write_at_fault, bad_index,
}
use minuet_lang_mirror.Runtime.Values.{FastValue}
use minuet_lang_mirror.Runtime.HeapStorage.{is_ripe}
use minuet_lang_mirror.Runtime.Bytecode.{mode_0}
use minuet_lang_mirror.Runtime.Vm.Engine.{Engine, Machine, CallFrame, fetch_value, next_ip}
use minuet_lang_mirror.Runtime.Vm.Collector.{try_mark_and_sweep}
use minuet_lang_mirror.Runtime.Vm.Control.{handle_call, handle_ret, saved_frame, restored}

-- The engine in the callee: the caller's frame is on top, and the register frame begins at the first
-- argument.
abbrev pub called : Engine → ℤ → ℤ → List CallFrame → Engine
called e func_id arg_count frames = record e {
  call_frame_ptr = e.call_frame_ptr +ℤ pos 1;
  call_frames = frames;
  rrd = wrap16 (e.rrd +ℤ pos 1);
  rfi = func_id;
  rip = pos 0;
  rbp = e.rft -ℤ arg_count +ℤ pos 1;
}

-- Where the next call frame is outside the frames, `handle_call` writes out of bounds.
pub handle_call_full :
    (e : Engine) (func_id arg_count : ℤ)
    → read_at e.call_frames (e.call_frame_ptr +ℤ pos 1) ≡ fault bad_index
    → handle_call e func_id arg_count ≡ fault bad_index
unfolding handle_call
handle_call_full e func_id arg_count full =
    rw (write_at_fault e.call_frames (e.call_frame_ptr +ℤ pos 1) (saved_frame e) full)

-- The engine `e'` behind the return of `v` to the caller `e` from the callee's last state `c`.
pub record Returned (e c : Engine) (arg_count : ℤ) (v : FastValue) (e' : Engine) : Type 0 where
  pub function : e'.rfi ≡ e.rfi
  pub instruction : e'.rip ≡ (next_ip e).rip
  pub base : e'.rbp ≡ e.rbp
  pub top : e'.rft ≡ e.rft
  pub depth : e'.rrd ≡ e.rrd
  pub status : e'.res ≡ e.res
  pub frame_pointer : e'.call_frame_ptr ≡ e.call_frame_ptr
  pub result : Written c.memory (e.rft -ℤ arg_count +ℤ pos 1) v e'.memory
  pub objects : e'.heap ≡ c.heap

-- A return undoes its call, whatever the callee did in between to the memory, the heap and the registers
-- that the frame saves. The hypotheses: the caller `e` has a depth below the largest `int16_t`; in the
-- callee's last state `c` the caller's frame is on top, the frame pointer, the base and the depth are
-- those that the call set; `c` can read the value `v` that is returned and the register it goes to; and
-- the heap is not ripe for collection. Then the caller's registers are back, at the next instruction,
-- and `v` is in the register of the first argument, the other registers as the callee left them.
pub handle_ret-Returned :
    (m : Machine) (e c : Engine) (metadata d : ℕ) (src_id arg_count : ℤ) (v old : FastValue)
    → e.rrd ≡ pos d
    → d < 32767
    → read_at c.call_frames c.call_frame_ptr ≡ done (saved_frame e)
    → c.call_frame_ptr ≡ e.call_frame_ptr +ℤ pos 1
    → c.rrd ≡ wrap16 (e.rrd +ℤ pos 1)
    → c.rbp ≡ e.rft -ℤ arg_count +ℤ pos 1
    → fetch_value m.program c (mode_0 metadata) src_id ≡ done (some v)
    → read_at c.memory c.rbp ≡ done old
    → is_ripe c.heap ≡ false
    → (e' : Engine) × (handle_ret m c metadata src_id ≡ done e') × Returned e c arg_count v e'
unfolding handle_ret try_mark_and_sweep
handle_ret-Returned m e c metadata d src_id arg_count v old small lt frame ptr deep base fetched
      room calm =
    let (ys, stored, w) = write_at-Written c.memory c.rbp v room in
    (
      restored (record c { memory = ys }) (saved_frame e),
      rw (fetched, stored, frame, calm),
      record {
        function = refl;
        instruction = refl;
        base = refl;
        top = refl;
        depth =
            ap (λ x. wrap16 (x -ℤ pos 1)) (deep ∙ ap (λ x. wrap16 (x +ℤ pos 1)) small)
            ∙ wrap16_back d lt
            ∙ sym small;
        status = refl;
        frame_pointer = ap (λ x. x -ℤ pos 1) ptr ∙ -ℤ_cancel e.call_frame_ptr (pos 1);
        result = rw (← base) w;
        objects = refl;
      },
    )
