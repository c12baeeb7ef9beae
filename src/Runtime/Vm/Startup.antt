-- ===== src/Runtime/Vm/Startup.antt =====
-- The constructor of `Engine` (src/runtime/vm.cpp) and the invariant of the engine.
use minuet_lang_mirror.Base.{
  ℕ, ◌≤◌, ◌≡◌, ℤ, pos, Bool, List, [], ◌∷◌, done, length, replicate, length-replicate,
}
use minuet_lang_mirror.Base.Ensures
use minuet_lang_mirror.Base.Ensures.{Ensures, returned, faulted}
use minuet_lang_mirror.Runtime.Values.{Addr, dud, string, sequence_value, string_value}
use minuet_lang_mirror.Runtime.Objects
use minuet_lang_mirror.Runtime.Objects.Sequence
use minuet_lang_mirror.Runtime.Objects.Text
use minuet_lang_mirror.Runtime.HeapStorage.{HeapStorage, load}
use minuet_lang_mirror.Runtime.HeapStorage.Invariant.{IsValid}
use minuet_lang_mirror.Runtime.HeapStorage.Preloads.{from_preloads-IsValid}
use minuet_lang_mirror.Runtime.HeapStorage.Preserved.{try_create_value-Ensures, store_at-Ensures}
use minuet_lang_mirror.Runtime.Bytecode.{Program}
use minuet_lang_mirror.Runtime.Vm.Engine.{EngineConfig, Engine, Machine}
use minuet_lang_mirror.Runtime.Vm.Dispatch.{load_arguments, start, run_loop, blank_frame}
use minuet_lang_mirror.Runtime.Vm.Invariant.{IsSound, write_at-size}
use minuet_lang_mirror.Runtime.Vm.Invariant.Execution.{NativesSound, run_loop-IsSound}

load_arguments-Ensures :
    (argv : Addr) (args : List (List ℤ)) (h : HeapStorage)
    → IsValid h
    → Ensures IsValid (load_arguments argv args h)
unfolding load_arguments
load_arguments-Ensures argv [] h v = returned v
load_arguments-Ensures argv (arg ∷ args) h v =
    Ensures.bind (try_create_value-Ensures h (string_value (Text.of_chars arg)) v) λ x v'.
      Ensures.after (load x.1 argv) λ o.
        Ensures.bind (store_at-Ensures x.1 argv (Objects.push_value o (string x.0)) v')
          λ h'' v''. load_arguments-Ensures argv args h'' v''

start-Ensures :
    (config : EngineConfig) (prgm : Program) (has_natives : Bool) (args : List (List ℤ))
    → length prgm.pre_objects ≤ 1024
    → Ensures
        (IsSound config.reg_buffer_limit config.call_frame_max)
        (start config prgm has_natives args)
unfolding start
start-Ensures config prgm has_natives args fits =
    let (h, built, v, c) = from_preloads-IsValid prgm.pre_objects fits in
    rw built (
      Ensures.bind (try_create_value-Ensures h (sequence_value Sequence.empty) v) λ x v'.
        Ensures.bind (load_arguments-Ensures x.0 args x.1 v') λ h'' v''.
          Ensures.bind
            (write_at-size config.call_frame_max (replicate config.call_frame_max blank_frame)
              (pos 0) blank_frame (length-replicate config.call_frame_max blank_frame))
            λ frames size. returned (record {
              heap_valid = v'';
              registers_kept = length-replicate config.reg_buffer_limit dud;
              frames_kept = size;
            }))

-- For a program of at most 1024 preloaded objects, and native procedures that keep the engine sound, the engine `e` that is constructed has a valid heap, the configured number of registers and the configured number of call frames, and so has the engine `e'` in which a run from it ends.
pub start-run_loop-IsSound :
    (config : EngineConfig) (m : Machine) (has_natives : Bool) (args : List (List ℤ)) (n : ℕ)
    (e e' : Engine)
    → length m.program.pre_objects ≤ 1024
    → NativesSound config.reg_buffer_limit config.call_frame_max m
    → start config m.program has_natives args ≡ done e
    → run_loop m n e ≡ done e'
    → IsSound config.reg_buffer_limit config.call_frame_max e
      × IsSound config.reg_buffer_limit config.call_frame_max e'
start-run_loop-IsSound config m has_natives args n e e' fits natives started ran =
    let sound =
      Ensures.holds_of_done (start-Ensures config m.program has_natives args fits) started in
    (sound, run_loop-IsSound m natives n e e' sound ran)
