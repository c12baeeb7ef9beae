-- ===== src/Runtime/FastValue/Assign.antt =====
-- The operations of src/runtime/fast_value.cpp that write: through a reference they write the item
-- that it refers to, and the heap comes back changed.
use minuet_lang_mirror.Base.{
  ℕ, zero, suc, pos, eq_ℤ, quot_ℤ, Bool, true, false, not, if◌then◌else◌, Run, done, fault, ◌>>=◌,
  no_fuel,
}
use minuet_lang_mirror.Runtime.Values.{wild, FastValue, dud, boolean, int32, val_ref, DoubleOps}
use minuet_lang_mirror.Runtime.HeapStorage.{HeapStorage, deref, assign}
use minuet_lang_mirror.Runtime.FastValue.{
  checked, times_values, divide_values, plus_values, minus_values,
}

-- A compound assignment: `op` gives the new value of a left operand that is no reference. On a
-- reference it is applied to the item, and the reference stays what it is.
unfoldable pub write_through :
    (FastValue → Run FastValue) → ℕ → HeapStorage → FastValue → Run (FastValue × HeapStorage)
unfolding deref assign
write_through op zero h self = fault no_fuel
write_through op (suc n) h (val_ref r) = do
  target ← deref h r
  (target', h') ← write_through op n h target
  h'' ← assign h' r target'
  done (val_ref r, h'')
write_through op (suc n) h self = do v ← op self; done (v, h)

-- `operator%=` divides where `operator%` takes the remainder.
unfoldable pub modulo_assign_values : DoubleOps → FastValue → FastValue → Run FastValue
unfolding quot_ℤ
modulo_assign_values fp (int32 a) (int32 b) =
    if not (eq_ℤ b (pos 0)) then checked (quot_ℤ a b) else done dud
modulo_assign_values fp _ _ = done dud

module _ (fp : DoubleOps) (n : ℕ) (h : HeapStorage) (self arg : FastValue) where
  -- `operator*=`
  unfoldable pub times_assign : Run (FastValue × HeapStorage)
  unfolding write_through times_values
  times_assign = write_through (λ v. times_values fp v arg) n h self

  -- `operator/=`
  unfoldable pub divide_assign : Run (FastValue × HeapStorage)
  unfolding write_through divide_values
  divide_assign = write_through (λ v. divide_values fp v arg) n h self

  -- `operator%=`
  unfoldable pub modulo_assign : Run (FastValue × HeapStorage)
  unfolding write_through modulo_assign_values
  modulo_assign = write_through (λ v. modulo_assign_values fp v arg) n h self

  -- `operator+=`
  unfoldable pub plus_assign : Run (FastValue × HeapStorage)
  unfolding write_through plus_values
  plus_assign = write_through (λ v. plus_values fp v arg) n h self

  -- `operator-=`
  unfoldable pub minus_assign : Run (FastValue × HeapStorage)
  unfolding write_through minus_values
  minus_assign = write_through (λ v. minus_values fp v arg) n h self

-- `negate`: the result says whether a Boolean was found and flipped.
unfoldable pub negate : ℕ → HeapStorage → FastValue → Run (Bool × FastValue × HeapStorage)
unfolding deref assign
negate zero h self = fault no_fuel
negate (suc n) h (val_ref r) = do
  target ← deref h r
  (flipped, target', h') ← negate n h target
  h'' ← assign h' r target'
  done (flipped, val_ref r, h'')
negate (suc n) h (boolean b) = done (true, boolean (not b), h)
negate (suc n) h self = done (false, self, h)

-- `emplace_other`: the result says whether the value was taken over. Where only the right operand
-- is a reference, the bytes of the referred value end under the tag of a reference.
unfoldable pub emplace_other :
    ℕ → HeapStorage → FastValue → FastValue → Run (Bool × FastValue × HeapStorage)
unfolding deref assign
emplace_other zero h self arg = fault no_fuel
emplace_other (suc n) h (val_ref r) (val_ref q) = done (true, val_ref q, h)
emplace_other (suc n) h (val_ref r) arg = do
  target ← deref h r
  (taken, target', h') ← emplace_other n h target arg
  h'' ← assign h' r target'
  done (taken, val_ref r, h'')
emplace_other (suc n) h self (val_ref q) = do
  source ← deref h q
  (taken, self', h') ← emplace_other n h self source
  done (taken, if taken then val_ref wild else self', h')
emplace_other (suc n) h self arg = done (true, arg, h)
