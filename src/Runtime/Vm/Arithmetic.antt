-- ===== src/Runtime/Vm/Arithmetic.antt =====
-- The handlers of src/runtime/vm.cpp that move values and compute with them.
pub mod Moves
use minuet_lang_mirror.Base.{
  ℕ, ℤ, Bool, not, Option, none, some, if◌then◌else◌, Run, done, fault, ◌>>=◌, bad_optional,
  from_option,
}
use minuet_lang_mirror.Runtime.Values.{FastValue, DoubleOps, is_none, is_val_ref}
use minuet_lang_mirror.Runtime.HeapStorage.{HeapStorage}
use minuet_lang_mirror.Runtime.FastValue
use minuet_lang_mirror.Runtime.FastValue.Assign
use minuet_lang_mirror.Runtime.Bytecode.{constant, mode_1, mode_2}
use minuet_lang_mirror.Runtime.Vm.Engine.{
  Engine, Machine, op_error, mem_error, arg_error, math_error, next_ip, fail_with, raise_top,
  read_reg, write_reg, finish_with, fetch_value,
}

-- `std::optional::value`
abbrev pub value : Option FastValue → Run FastValue
value o = from_option bad_optional o

unfoldable pub finish_fetched : Engine → ℤ → Option FastValue → Run Engine
unfolding finish_with
finish_fetched e dest none = done (fail_with mem_error e)
finish_fetched e dest (some v) = finish_with e dest v

-- `handle_load_const`
unfoldable pub handle_load_const : Machine → Engine → ℤ → ℤ → Run Engine
unfolding fetch_value finish_fetched
handle_load_const m e dest const_id = do
  temp_const ← fetch_value m.program e constant const_id
  finish_fetched e dest temp_const

-- The assignment to the item behind a register that holds a reference.
unfoldable pub move_through : Machine → Engine → ℤ → FastValue → FastValue → Run Engine
unfolding Assign.emplace_other finish_with
move_through m e dest dest_ref v = do
  (taken, dest_ref', heap) ← Assign.emplace_other m.depth e.heap dest_ref v
  e' ← write_reg (record e { heap = heap }) dest dest_ref'
  if taken then done (next_ip (raise_top e' dest)) else done (fail_with mem_error e')

unfoldable pub move_fetched : Machine → Engine → ℤ → Option FastValue → Run Engine
unfolding read_reg finish_with move_through
move_fetched m e dest none = done (fail_with mem_error e)
move_fetched m e dest (some v) = do
  dest_ref ← read_reg e dest
  if is_val_ref dest_ref then move_through m e dest dest_ref v else finish_with e dest v

-- `handle_mov`
unfoldable pub handle_mov : Machine → Engine → ℕ → ℤ → ℤ → Run Engine
unfolding fetch_value mode_1 move_fetched
handle_mov m e metadata dest src = do
  src_value_opt ← fetch_value m.program e (mode_1 metadata) src
  move_fetched m e dest src_value_opt

-- `handle_neg`: the error branch is the one of a negation that succeeded.
unfoldable pub handle_neg : Machine → Engine → ℤ → Run Engine
unfolding read_reg write_reg Assign.negate
handle_neg m e dest = do
  v ← read_reg e dest
  (flipped, v', heap) ← Assign.negate m.depth e.heap v
  e' ← write_reg (record e { heap = heap }) dest v'
  if flipped then done (fail_with arg_error (raise_top e' dest)) else done (next_ip e')

-- `handle_inc` and `handle_dec` are not implemented.
unfoldable pub handle_inc : Engine → ℤ → Run Engine
handle_inc e dest = done (fail_with op_error e)

unfoldable pub handle_dec : Engine → ℤ → Run Engine
handle_dec e dest = done (fail_with op_error e)

-- The two operands of a binary instruction.
unfoldable pub fetch_pair : Machine → Engine → ℕ → ℤ → ℤ → Run (Option FastValue × Option FastValue)
unfolding fetch_value mode_1 mode_2
fetch_pair m e metadata lhs rhs = do
  lhs_opt ← fetch_value m.program e (mode_1 metadata) lhs
  rhs_opt ← fetch_value m.program e (mode_2 metadata) rhs
  done (lhs_opt, rhs_opt)

-- The left value is written to the register, which is then the left side of a compound assignment.
unfoldable pub assign_op :
    (ℕ → HeapStorage → FastValue → FastValue → Run (FastValue × HeapStorage))
    → Machine
    → Engine
    → ℕ
    → ℤ
    → ℤ
    → ℤ
    → Run Engine
unfolding fetch_pair write_reg
assign_op op m e metadata dest lhs rhs = do
  (lhs_opt, rhs_opt) ← fetch_pair m e metadata lhs rhs
  self ← value lhs_opt
  e' ← write_reg e dest self
  arg ← value rhs_opt
  (result, heap) ← op m.depth e'.heap self arg
  e'' ← write_reg (record e' { heap = heap }) dest result
  done (next_ip (raise_top e'' dest))

-- The result of a pure operator, where `dud` is an error.
unfoldable pub checked_op :
    (ℕ → HeapStorage → FastValue → FastValue → Run FastValue)
    → Machine
    → Engine
    → ℕ
    → ℤ
    → ℤ
    → ℤ
    → Run Engine
unfolding fetch_pair finish_with
checked_op op m e metadata dest lhs rhs = do
  (lhs_opt, rhs_opt) ← fetch_pair m e metadata lhs rhs
  self ← value lhs_opt
  arg ← value rhs_opt
  temp ← op m.depth e.heap self arg
  if not (is_none temp) then finish_with e dest temp else done (fail_with math_error e)

module _ (m : Machine) (e : Engine) (metadata : ℕ) (dest lhs rhs : ℤ) where
  unfoldable pub handle_mul : Run Engine
  unfolding assign_op Assign.times_assign
  handle_mul = assign_op (Assign.times_assign m.doubles) m e metadata dest lhs rhs

  unfoldable pub handle_div : Run Engine
  unfolding checked_op FastValue.divide
  handle_div = checked_op (FastValue.divide m.doubles) m e metadata dest lhs rhs

  unfoldable pub handle_mod : Run Engine
  unfolding checked_op FastValue.modulo
  handle_mod = checked_op (FastValue.modulo m.doubles) m e metadata dest lhs rhs

  unfoldable pub handle_add : Run Engine
  unfolding assign_op Assign.plus_assign
  handle_add = assign_op (Assign.plus_assign m.doubles) m e metadata dest lhs rhs

  unfoldable pub handle_sub : Run Engine
  unfolding assign_op Assign.minus_assign
  handle_sub = assign_op (Assign.minus_assign m.doubles) m e metadata dest lhs rhs
