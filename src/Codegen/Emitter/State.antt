-- ===== src/Codegen/Emitter/State.antt =====
-- src/bcgen/emitter.hpp and emitter.cpp: the state, and the back of its vectors.
use minuet_lang_mirror.Base.{
  ℤ, pos, ltb_ℤ, ◌+ℤ◌, List, [], ◌∷◌, ◌++◌, Option, none, some, length, Run, done, fault, bad_index,
  read_at, write_at, wrap16, ◌>>=◌, if◌then◌else◌,
}
use minuet_lang_mirror.Runtime.Bytecode.{Chunk, Instruction}

pub record ActiveIfElse : Type 0 where
  pub check_ip : ℤ
  pub alt_ip : ℤ
  pub end_ip : ℤ

pub record ActiveLoop : Type 0 where
  pub brk_ips : List ℤ
  pub cont_ips : List ℤ
  pub start_ip : ℤ
  pub check_ip : ℤ
  pub exit_ip : ℤ

pub record Emitter : Type 0 where
  pub result_chunks : List Chunk
  pub active_ifs : List ActiveIfElse
  pub active_loops : List ActiveLoop
  pub next_fun_id : ℤ

unfoldable pub fresh_emitter : Emitter
fresh_emitter = record {
  result_chunks = [];
  active_ifs = [];
  active_loops = [];
  next_fun_id = pos 0;
}

-- `back()` of a vector, and a write through it.
module _ {ℓ} {A : Type ℓ} where
  abbrev pub back : List A → Run A
  back [] = fault bad_index
  back (x ∷ []) = done x
  back (x ∷ y ∷ ys) = back (y ∷ ys)

  abbrev pub set_back : List A → A → List A
  set_back [] v = []
  set_back (x ∷ []) v = v ∷ []
  set_back (x ∷ y ∷ ys) v = x ∷ set_back (y ∷ ys) v

-- `m_result_chunks.back().emplace_back(i)`.
unfoldable pub append : Instruction → Emitter → Run Emitter
append i e = do
  chunk ← back e.result_chunks
  done (record e { result_chunks = set_back e.result_chunks (chunk ++ i ∷ []) })

-- `m_result_chunks.back().size()`, as an `int`.
unfoldable pub chunk_size : Emitter → Run ℤ
chunk_size e = do chunk ← back e.result_chunks; done (pos (length chunk))

-- The id before the step, and the emitter with the next one.
unfoldable pub gen_function_id : Emitter → Option ℤ × Emitter
gen_function_id e =
    if ltb_ℤ e.next_fun_id (pos 32767)
    then (some e.next_fun_id, record e { next_fun_id = wrap16 (e.next_fun_id +ℤ pos 1) })
    else (none, e)

-- `chunk[ip].args[0] = value` and `chunk[ip].args[1] = value`, which narrow to `int16_t`.
unfoldable pub patch_arg_0 : ℤ → Chunk → ℤ → Run Chunk
patch_arg_0 value chunk ip = do
  i ← read_at chunk ip
  write_at chunk ip (record i { arg_0 = wrap16 value })

unfoldable pub patch_arg_1 : ℤ → Chunk → ℤ → Run Chunk
patch_arg_1 value chunk ip = do
  i ← read_at chunk ip
  write_at chunk ip (record i { arg_1 = wrap16 value })

-- The loops over the recorded jumps.
unfoldable pub patch_jumps : ℤ → List ℤ → Chunk → Run Chunk
unfolding patch_arg_0
patch_jumps value [] chunk = done chunk
patch_jumps value (ip ∷ ips) chunk = do
  patched ← patch_arg_0 value chunk ip
  patch_jumps value ips patched
