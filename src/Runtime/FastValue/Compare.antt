-- ===== src/Runtime/FastValue/Compare.antt =====
-- The comparisons of src/runtime/fast_value.cpp, and `operator==` of the heap objects.
use minuet_lang_mirror.Base.{
  ℕ, zero, suc, eq_ℤ, ltb_ℤ, leb_ℤ, Bool, false, not, ◌&&◌, ◌||◌, Run, done, fault, ◌>>=◌, no_fuel,
}
use minuet_lang_mirror.Runtime.Values.{
  Addr, FastValue, boolean, chr8, int32, flt64, val_ref, string, sequence, DoubleOps,
}
use minuet_lang_mirror.Runtime.Objects
use minuet_lang_mirror.Runtime.HeapStorage.{HeapStorage, deref, load}
use minuet_lang_mirror.Runtime.FastValue.{follow}

abbrev bool_eq : Bool → Bool → Bool
bool_eq a b = (a && b) || (not a && not b)

-- Both object pointers are followed, and the objects are compared.
unfoldable pub compare_objects :
    (FastValue → FastValue → Run Bool) → HeapStorage → Addr → Addr → Run Bool
unfolding Objects.object_eq load
compare_objects eq h p q = do a ← load h p; b ← load h q; Objects.object_eq eq a b

-- `operator==` on a left operand that is no reference; `eq` compares the items of objects.
unfoldable pub values_equal :
    DoubleOps → (FastValue → FastValue → Run Bool) → HeapStorage → FastValue → FastValue → Run Bool
unfolding compare_objects
values_equal fp eq h (boolean a) (boolean b) = done (bool_eq a b)
values_equal fp eq h (chr8 a) (chr8 b) = done (eq_ℤ a b)
values_equal fp eq h (int32 a) (int32 b) = done (eq_ℤ a b)
values_equal fp eq h (flt64 a) (flt64 b) = done (fp.equal a b)
values_equal fp eq h (sequence p) (sequence q) = compare_objects eq h p q
values_equal fp eq h (string p) (string q) = compare_objects eq h p q
values_equal fp eq h _ _ = done false

-- `operator==`
unfoldable pub equal : DoubleOps → ℕ → HeapStorage → FastValue → FastValue → Run Bool
unfolding values_equal deref
equal fp zero h self arg = fault no_fuel
equal fp (suc n) h (val_ref r) arg = do target ← deref h r; equal fp n h target arg
equal fp (suc n) h self arg = values_equal fp (equal fp n h) h self arg

-- The orders on a left operand that is no reference: on characters, integers and doubles.
unfoldable pub values_less : DoubleOps → FastValue → FastValue → Bool
values_less fp (chr8 a) (chr8 b) = ltb_ℤ a b
values_less fp (int32 a) (int32 b) = ltb_ℤ a b
values_less fp (flt64 a) (flt64 b) = fp.less a b
values_less fp _ _ = false

unfoldable pub values_greater : DoubleOps → FastValue → FastValue → Bool
values_greater fp (chr8 a) (chr8 b) = ltb_ℤ b a
values_greater fp (int32 a) (int32 b) = ltb_ℤ b a
values_greater fp (flt64 a) (flt64 b) = fp.less b a
values_greater fp _ _ = false

unfoldable pub values_at_most : DoubleOps → FastValue → FastValue → Bool
values_at_most fp (chr8 a) (chr8 b) = leb_ℤ a b
values_at_most fp (int32 a) (int32 b) = leb_ℤ a b
values_at_most fp (flt64 a) (flt64 b) = fp.at_most a b
values_at_most fp _ _ = false

unfoldable pub values_at_least : DoubleOps → FastValue → FastValue → Bool
values_at_least fp (chr8 a) (chr8 b) = leb_ℤ b a
values_at_least fp (int32 a) (int32 b) = leb_ℤ b a
values_at_least fp (flt64 a) (flt64 b) = fp.at_most b a
values_at_least fp _ _ = false

module _ (fp : DoubleOps) (n : ℕ) (h : HeapStorage) (self arg : FastValue) where
  -- `operator<`
  unfoldable pub less : Run Bool
  unfolding follow values_less
  less = follow (λ v. done (values_less fp v arg)) n h self

  -- `operator>`
  unfoldable pub greater : Run Bool
  unfolding follow values_greater
  greater = follow (λ v. done (values_greater fp v arg)) n h self

  -- `operator<=`
  unfoldable pub at_most : Run Bool
  unfolding follow values_at_most
  at_most = follow (λ v. done (values_at_most fp v arg)) n h self

  -- `operator>=`
  unfoldable pub at_least : Run Bool
  unfolding follow values_at_least
  at_least = follow (λ v. done (values_at_least fp v arg)) n h self
