-- ===== src/Ir/Convert/State.antt =====
-- src/ir/convert_ast.hpp and convert_ast.cpp: the state of the converter, its names and its blocks.
use minuet_lang_mirror.Base.{
  ℕ, ℤ, pos, negsuc, ◌+◌, ◌+ℤ◌, ◌==◌, Bool, true, false, ◌&&◌, Option, none, some, List, [], ◌∷◌,
  ◌++◌, length, Run, done, bad_optional, from_option, ◌>>=◌, wrap16, if◌then◌else◌,
}
use minuet_lang_mirror.Frontend.Lexicals.{Text}
use minuet_lang_mirror.Ir.Steps.{Step, AbsAddress, AbsAddrTag}
use minuet_lang_mirror.Ir.Graph.{Cfg, get_newest_bb, add_bb, link_bb}
use minuet_lang_mirror.Runtime.Values.{FastValue, HeapValue}
use minuet_lang_mirror.Codegen.Emitter.State.{back, set_back}

pub record BbLink : Type 0 where
  pub from : ℤ
  pub to : ℤ

pub data NameLocation : Type 0 where
  global_native_slot global_function_slot local_slot : NameLocation

-- `unordered_map<string, AbsAddress>`, whose keys differ.
abbrev pub Names : Type 0
Names = List (Text × AbsAddress)

-- `ASTConversion`
pub record Conversion : Type 0 where
  pub globals : Names
  pub locals : Names
  pub pending_links : List BbLink
  pub result_cfgs : List Cfg
  pub proto_consts : List FastValue
  pub proto_heap_objs : List HeapValue
  pub native_proc_ids : List (Text × ℤ)
  pub proto_main_id : ℤ
  pub error_count : ℕ
  pub next_func_aa : ℤ
  pub next_local_aa : ℤ
  pub prepassing : Bool

unfoldable pub fresh_conversion : List (Text × ℤ) → Conversion
fresh_conversion native_proc_ids = record {
  globals = [];
  locals = [];
  pending_links = [];
  result_cfgs = [];
  proto_consts = [];
  proto_heap_objs = [];
  native_proc_ids = native_proc_ids;
  proto_main_id = negsuc 0;
  error_count = 0;
  next_func_aa = pos 0;
  next_local_aa = pos 0;
  prepassing = true;
}

abbrev pub text_eq : Text → Text → Bool
text_eq [] [] = true
text_eq (x ∷ xs) (y ∷ ys) = x == y && text_eq xs ys
text_eq xs ys = false

abbrev pub find {ℓ} : {A : Type ℓ} → List (Text × A) → Text → Option A
find [] name = none
find (entry ∷ entries) name = if text_eq entry.0 name then some entry.1 else find entries name

unfoldable pub report_error : Conversion → Conversion
report_error c = record c { error_count = c.error_count + 1 }

-- These two always give an address, so the branches on an empty one are never taken.
unfoldable pub gen_fun_aa : Conversion → AbsAddress × Conversion
gen_fun_aa c = (
  record { tag = AbsAddrTag.immediate; id = c.next_func_aa },
  record c { next_func_aa = wrap16 (c.next_func_aa +ℤ pos 1) },
)

unfoldable pub gen_temp_aa : Conversion → AbsAddress × Conversion
gen_temp_aa c = (
  record { tag = AbsAddrTag.temp; id = c.next_local_aa },
  record c { next_local_aa = wrap16 (c.next_local_aa +ℤ pos 1) },
)

-- The address under the lexeme, or a new entry of the pool.
abbrev pub resolve_found :
    Text → FastValue → Conversion → Option AbsAddress → AbsAddress × Conversion
resolve_found lexeme value c (some aa) = (aa, c)
resolve_found lexeme value c none =
    let next_aa : AbsAddress = record {
      tag = AbsAddrTag.constant;
      id = wrap16 (pos (length c.proto_consts));
    } in
    (
      next_aa,
      record c {
        proto_consts = c.proto_consts ++ value ∷ [];
        globals = (lexeme, next_aa) ∷ c.globals;
      },
    )

unfoldable pub resolve_constant_aa : Text → FastValue → Conversion → AbsAddress × Conversion
resolve_constant_aa lexeme value c = resolve_found lexeme value c (find c.globals lexeme)

unfoldable pub resolve_heap_obj_aa : HeapValue → Conversion → AbsAddress × Conversion
resolve_heap_obj_aa obj_box c = (
  record { tag = AbsAddrTag.heap; id = wrap16 (pos (length c.proto_heap_objs)) },
  record c { proto_heap_objs = c.proto_heap_objs ++ obj_box ∷ [] },
)

abbrev is_none_found {ℓ} : {A : Type ℓ} → Option A → Bool
is_none_found none = true
is_none_found (some a) = false

abbrev add_global : Text → AbsAddress → Conversion → Bool × Conversion
add_global name aa c =
    if is_none_found (find c.globals name)
    then (true, record c { globals = (name, aa) ∷ c.globals })
    else (false, c)

-- A name that is taken keeps its address.
unfoldable pub record_name_aa : NameLocation → Text → AbsAddress → Conversion → Bool × Conversion
record_name_aa global_native_slot name aa c = add_global name aa c
record_name_aa global_function_slot name aa c = add_global name aa c
record_name_aa local_slot name aa c =
    if is_none_found (find c.locals name)
    then (true, record c { locals = (name, aa) ∷ c.locals })
    else (false, c)

abbrev pub lookup_in : Conversion → Text → Option ℤ → Option AbsAddress → Option AbsAddress
lookup_in c name (some id) global = some (record { tag = AbsAddrTag.constant; id = wrap16 id })
lookup_in c name none (some aa) = some aa
lookup_in c name none none = find c.locals name

-- Natives first, then globals, then locals.
unfoldable pub lookup_name_aa : Text → Conversion → Option AbsAddress
lookup_name_aa name c = lookup_in c name (find c.native_proc_ids name) (find c.globals name)

unfoldable pub add_cfg : Conversion → Conversion
add_cfg c = record c { result_cfgs = c.result_cfgs ++ [] ∷ [] }

-- `m_result_cfgs.back().get_newest_bb().value()->steps.emplace_back(s)`.
unfoldable pub add_step : Step → Conversion → Run Conversion
unfolding get_newest_bb
add_step s c = do
  g ← back c.result_cfgs
  bb ← from_option bad_optional (get_newest_bb g)
  done (record c {
    result_cfgs = set_back c.result_cfgs (set_back g (record bb { steps = bb.steps ++ s ∷ [] }));
  })

-- `m_result_cfgs.back().add_bb()`, with the id of the block.
unfoldable pub add_block : Conversion → Run (ℤ × Conversion)
unfolding add_bb
add_block c = do
  g ← back c.result_cfgs
  let (id, g') = add_bb g
  done (id, record c { result_cfgs = set_back c.result_cfgs g' })

-- `m_result_cfgs.back().bb_count() - 1`.
unfoldable pub newest_bb_id : Conversion → Run ℤ
newest_bb_id c = do g ← back c.result_cfgs; done (pos (length g) +ℤ negsuc 0)

unfoldable pub push_link : ℤ → ℤ → Conversion → Conversion
push_link from_id to_id c = record c {
  pending_links = c.pending_links ++ record { from = from_id; to = to_id } ∷ [];
}

-- The loop over the queue, with what is left of it; a link that fails stays in front.
unfoldable pub apply_links : List BbLink → Cfg → Run (Bool × List BbLink × Cfg)
unfolding link_bb
apply_links [] g = done (true, [], g)
apply_links (l ∷ ls) g = do
  (linked, g') ← link_bb g l.from l.to
  let rest = apply_links ls g'
  if linked then rest else done (false, l ∷ ls, g')

abbrev no_cfgs : List Cfg → Bool
no_cfgs [] = true
no_cfgs (g ∷ gs) = false

unfoldable pub apply_pending_links : Conversion → Run (Bool × Conversion)
unfolding apply_links
apply_pending_links c = if no_cfgs c.result_cfgs then done (false, c) else (do
  g ← back c.result_cfgs
  (ok, left, g') ← apply_links c.pending_links g
  done (ok, record c { pending_links = left; result_cfgs = set_back c.result_cfgs g' }))
