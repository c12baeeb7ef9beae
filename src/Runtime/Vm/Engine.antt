-- ===== src/Runtime/Vm/Engine.antt =====
-- The state of `Engine` (src/runtime/vm.hpp), and the register file as its handlers read and write it.
use minuet_lang_mirror.Base.{
  ℕ, ℤ, pos, ◌+ℤ◌, max_ℤ, wrap16, Bool, true, Option, none, some, List, Run, done, ◌>>=◌, read_at,
  write_at,
}
use minuet_lang_mirror.Runtime.Values.{Addr, FastValue, DoubleOps}
use minuet_lang_mirror.Runtime.HeapStorage.{HeapStorage}
use minuet_lang_mirror.Runtime.Bytecode.{Program, ArgMode, constant, reg}

pub data ExecStatus : Type 0 where
  ok setup_error op_error arg_error mem_error math_error user_error any_error : ExecStatus

abbrev pub is_ok : ExecStatus → Bool
is_ok ok = true
is_ok _ = Bool.false

pub record EngineConfig : Type 0 where
  pub reg_buffer_limit : ℕ
  pub call_frame_max : ℕ

pub record CallFrame : Type 0 where
  pub old_func_idx : ℤ
  pub old_func_ip : ℤ
  pub old_base_ptr : ℤ
  pub old_mem_top : ℤ
  pub old_exec_status : ExecStatus

-- The members of `Engine` that change; `call_frame_ptr` counts from the start of `call_frames`.
pub record Engine : Type 0 where
  pub heap : HeapStorage
  pub memory : List FastValue
  pub call_frames : List CallFrame
  pub program_argv : Option Addr
  pub call_frame_ptr : ℤ
  pub rfi : ℤ
  pub rip : ℤ
  pub rbp : ℤ
  pub rft : ℤ
  pub rrd : ℤ
  pub res : ExecStatus

-- A native procedure is called with the argument count, and says whether it succeeded.
abbrev pub NativeProc : Type 0
NativeProc = Engine → ℤ → Run (Bool × Engine)

-- What the engine reads and never writes. `depth` bounds the chains of references and the nesting
-- of objects that an operator follows.
pub record Machine : Type 0 where
  pub program : Program
  pub natives : List NativeProc
  pub doubles : DoubleOps
  pub depth : ℕ

-- `++m_rip`
abbrev pub next_ip : Engine → Engine
next_ip e = record e { rip = wrap16 (e.rip +ℤ pos 1) }

abbrev pub fail_with : ExecStatus → Engine → Engine
fail_with s e = record e { res = s }

-- `m_memory[m_rbp + id]`
unfoldable pub read_reg : Engine → ℤ → Run FastValue
read_reg e id = read_at e.memory (e.rbp +ℤ id)

unfoldable pub write_reg : Engine → ℤ → FastValue → Run Engine
write_reg e id v = do
  memory ← write_at e.memory (e.rbp +ℤ id) v
  done (record e { memory = memory })

-- `m_rft = std::max(m_rft, m_rbp + dest)`
abbrev pub raise_top : Engine → ℤ → Engine
raise_top e dest = record e { rft = max_ℤ e.rft (e.rbp +ℤ dest) }

-- The result of an instruction goes to register `dest`, and the next instruction is up.
unfoldable pub finish_with : Engine → ℤ → FastValue → Run Engine
unfolding write_reg
finish_with e dest v = do e' ← write_reg e dest v; done (next_ip (raise_top e' dest))

abbrev some_of : Run FastValue → Run (Option FastValue)
some_of m = m >>= λ v. done (some v)

-- `fetch_value`
unfoldable pub fetch_value : Program → Engine → ArgMode → ℤ → Run (Option FastValue)
unfolding read_reg
fetch_value p e constant id = some_of (read_at p.constants id)
fetch_value p e reg id = some_of (read_reg e id)
fetch_value p e _ id = done none
