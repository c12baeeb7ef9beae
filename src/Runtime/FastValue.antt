-- ===== src/Runtime/FastValue.antt =====
-- src/runtime/fast_value.cpp. The operators take the fuel for a chain of references, the heap that
-- the references lead into, and the two operands. An `int` result out of range is undefined.
pub mod Compare
pub mod Assign
pub mod Print
pub mod References
pub mod Division
pub mod Equality
pub mod Aliasing
pub mod Preserved
use minuet_lang_mirror.Base.{
  ℕ, zero, suc, ℤ, pos, ◌+ℤ◌, ◌-ℤ◌, ◌*ℤ◌, quot_ℤ, rem_ℤ, fits_int32, eq_ℤ, Bool, true, false, not,
  if◌then◌else◌, Run, done, fault, ◌>>=◌, overflow, no_fuel,
}
use minuet_lang_mirror.Runtime.Values.{
  Ref, wild, FastValue, dud, boolean, chr8, int32, flt64, val_ref, string, sequence, DoubleOps,
}
use minuet_lang_mirror.Runtime.HeapStorage.{HeapStorage, deref, assign}

-- An operator whose left operand is a reference is called again on the value that it refers to.
unfoldable pub follow {ℓ} : {A : Type ℓ} → (FastValue → Run A) → ℕ → HeapStorage → FastValue → Run A
unfolding deref
follow op zero h self = fault no_fuel
follow op (suc n) h (val_ref r) = do target ← deref h r; follow op n h target
follow op (suc n) h self = op self

abbrev checked : ℤ → Run FastValue
checked z = if fits_int32 z then done (int32 z) else fault overflow

-- `explicit operator bool`
unfoldable pub truthy : DoubleOps → FastValue → Bool
truthy fp (boolean b) = b
truthy fp (chr8 c) = not (eq_ℤ c (pos 0))
truthy fp (int32 i) = not (eq_ℤ i (pos 0))
truthy fp (flt64 d) = fp.nonzero d
truthy fp _ = false

-- The operators on a left operand that is no reference. Operands of different tags give `dud`.
unfoldable pub times_values : DoubleOps → FastValue → FastValue → Run FastValue
times_values fp (int32 a) (int32 b) = checked (a *ℤ b)
times_values fp (flt64 a) (flt64 b) = done (flt64 (fp.times a b))
times_values fp _ _ = done dud

unfoldable pub divide_values : DoubleOps → FastValue → FastValue → Run FastValue
unfolding quot_ℤ
divide_values fp (int32 a) (int32 b) =
    if not (eq_ℤ b (pos 0)) then checked (quot_ℤ a b) else done dud
divide_values fp (flt64 a) (flt64 b) =
    if fp.nonzero b then done (flt64 (fp.divide a b)) else done dud
divide_values fp _ _ = done dud

-- The remainder is undefined where the quotient overflows.
unfoldable pub modulo_values : DoubleOps → FastValue → FastValue → Run FastValue
unfolding quot_ℤ rem_ℤ
modulo_values fp (int32 a) (int32 b) =
    if not (eq_ℤ b (pos 0))
    then (if fits_int32 (quot_ℤ a b) then done (int32 (rem_ℤ a b)) else fault overflow)
    else done dud
modulo_values fp _ _ = done dud

unfoldable pub plus_values : DoubleOps → FastValue → FastValue → Run FastValue
plus_values fp (int32 a) (int32 b) = checked (a +ℤ b)
plus_values fp (flt64 a) (flt64 b) = done (flt64 (fp.plus a b))
plus_values fp _ _ = done dud

unfoldable pub minus_values : DoubleOps → FastValue → FastValue → Run FastValue
minus_values fp (int32 a) (int32 b) = checked (a -ℤ b)
minus_values fp (flt64 a) (flt64 b) = done (flt64 (fp.minus a b))
minus_values fp _ _ = done dud

module _ (fp : DoubleOps) (n : ℕ) (h : HeapStorage) (self arg : FastValue) where
  -- `operator*`
  unfoldable pub times : Run FastValue
  unfolding follow times_values
  times = follow (λ v. times_values fp v arg) n h self

  -- `operator/`
  unfoldable pub divide : Run FastValue
  unfolding follow divide_values
  divide = follow (λ v. divide_values fp v arg) n h self

  -- `operator%`
  unfoldable pub modulo : Run FastValue
  unfolding follow modulo_values
  modulo = follow (λ v. modulo_values fp v arg) n h self

  -- `operator+`
  unfoldable pub plus : Run FastValue
  unfolding follow plus_values
  plus = follow (λ v. plus_values fp v arg) n h self

  -- `operator-`
  unfoldable pub minus : Run FastValue
  unfolding follow minus_values
  minus = follow (λ v. minus_values fp v arg) n h self
