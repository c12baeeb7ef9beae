-- ===== src/Runtime/Vm/Invariant.antt =====
-- The invariant of `Engine` (src/runtime/vm.hpp): the heap is valid, and the register file and the call
-- frames keep the sizes that the constructor gave them.
pub mod Handlers
pub mod Computation
pub mod Execution
use minuet_lang_mirror.Base.{
  ℕ, ◌≡◌, refl, ◌∙◌, ℤ, ◌+ℤ◌, Option, none, some, List, Run, done, fault, ◌>>=◌, length, write_at,
  Written-write_at,
}
use minuet_lang_mirror.Base.Ensures
use minuet_lang_mirror.Base.Ensures.{Ensures, returned, faulted}
use minuet_lang_mirror.Runtime.Values.{FastValue}
use minuet_lang_mirror.Runtime.HeapStorage.{HeapStorage}
use minuet_lang_mirror.Runtime.HeapStorage.Invariant.{IsValid}
use minuet_lang_mirror.Runtime.Vm.Engine.{
  Engine, Machine, NativeProc, next_ip, raise_top, write_reg, finish_with,
}

pub record IsSound (registers frames : ℕ) (e : Engine) : Type 0 where
  pub heap_valid : IsValid e.heap
  pub registers_kept : length e.memory ≡ registers
  pub frames_kept : length e.call_frames ≡ frames

pub write_at-size {ℓ} :
    {A : Type ℓ} (size : ℕ) (xs : List A) (i : ℤ) (v : A)
    → length xs ≡ size
    → Ensures (λ ys. length ys ≡ size) (write_at xs i v)
write_at-size {A} size xs i v e =
    sized (write_at xs i v) (λ ys w. (Written-write_at xs i v w).size ∙ e)
  where
    sized :
        (m : Run (List A))
        → ((ys : List A) → m ≡ done ys → length ys ≡ size)
        → Ensures (λ ys. length ys ≡ size) m
    sized (done ys) f = returned (f ys refl)
    sized (fault e) f = faulted

-- A result that is a sound engine.
abbrev pub Sound : ℕ → ℕ → Run Engine → Type 0
Sound registers frames = Ensures (IsSound registers frames)

module _ {registers frames : ℕ} where
  pub with_heap :
      (e : Engine) (h : HeapStorage)
      → IsSound registers frames e
      → IsValid h
      → IsSound registers frames (record e { heap = h })
  with_heap e h s v = record {
    heap_valid = v;
    registers_kept = s.registers_kept;
    frames_kept = s.frames_kept;
  }

  pub next_ip-IsSound :
      (e : Engine) → IsSound registers frames e → IsSound registers frames (next_ip e)
  next_ip-IsSound e s = record {
    heap_valid = s.heap_valid;
    registers_kept = s.registers_kept;
    frames_kept = s.frames_kept;
  }

  pub raise_top-IsSound :
      (e : Engine) (dest : ℤ)
      → IsSound registers frames e
      → IsSound registers frames (next_ip (raise_top e dest))
  raise_top-IsSound e dest s = record {
    heap_valid = s.heap_valid;
    registers_kept = s.registers_kept;
    frames_kept = s.frames_kept;
  }

  pub write_reg-Sound :
      (e : Engine) (id : ℤ) (v : FastValue)
      → IsSound registers frames e
      → Sound registers frames (write_reg e id v)
  unfolding write_reg
  write_reg-Sound e id v s =
      Ensures.bind (write_at-size registers e.memory (e.rbp +ℤ id) v s.registers_kept) λ ys size.
        returned
          (record { heap_valid = s.heap_valid; registers_kept = size; frames_kept = s.frames_kept })

  pub finish_with-Sound :
      (e : Engine) (dest : ℤ) (v : FastValue)
      → IsSound registers frames e
      → Sound registers frames (finish_with e dest v)
  unfolding finish_with
  finish_with-Sound e dest v s =
      Ensures.bind (write_reg-Sound e dest v s) λ e' s'. returned (raise_top-IsSound e' dest s')
