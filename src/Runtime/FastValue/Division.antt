-- ===== src/Runtime/FastValue/Division.antt =====
-- Division and remainder of integers (`operator/`, `operator%` and `operator%=` of
-- src/runtime/fast_value.cpp).
use native.Mathlib.Nat.{div-add-mod}
use minuet_lang_mirror.Base.{
  ℕ, zero, suc, ◌+◌, ◌<◌, ◌≡◌, refl, ℤ, pos, negsuc, pos_part, neg_part, eq_ℤ, ◌+ℤ◌, ◌*ℤ◌, quot_ℤ,
  rem_ℤ, fits_int32, true, false, arith, done,
}
use minuet_lang_mirror.Runtime.Values.{FastValue, int32, DoubleOps}
use minuet_lang_mirror.Runtime.HeapStorage.{HeapStorage}
use minuet_lang_mirror.Runtime.FastValue.{follow, divide, modulo, divide_values, modulo_values}
use minuet_lang_mirror.Runtime.FastValue.Assign.{
  write_through, modulo_assign_values, modulo_assign, divide_assign,
}

-- Quotient times divisor plus remainder is the dividend.
quot-rem : (a b : ℤ) → quot_ℤ a b *ℤ b +ℤ rem_ℤ a b ≡ a
unfolding quot_ℤ rem_ℤ ◌+ℤ◌ ◌*ℤ◌
quot-rem (pos a) (pos b) = grind (arith, div-add-mod a b)
quot-rem (pos a) (negsuc b) = grind (arith, div-add-mod a (suc b))
quot-rem (negsuc a) (pos b) = grind (arith, div-add-mod (suc a) b)
quot-rem (negsuc a) (negsuc b) = grind (arith, div-add-mod (suc a) (suc b))

rem-lt :
    (a b : ℤ)
    → eq_ℤ b (pos 0) ≡ false
    → pos_part (rem_ℤ a b) + neg_part (rem_ℤ a b) < pos_part b + neg_part b
unfolding rem_ℤ
rem-lt (pos a) (pos b) ne = ground arith
rem-lt (pos a) (negsuc b) ne = ground arith
rem-lt (negsuc a) (pos b) ne = ground arith
rem-lt (negsuc a) (negsuc b) ne = ground arith

module _ (fp : DoubleOps) (n : ℕ) (h : HeapStorage) (a b : ℤ) where
  -- Where the divisor is not zero and the quotient fits an `int`, `/` and `%` give a quotient `q` and a
  -- remainder `r` with `q * b + r = a`, and `r` is smaller than the divisor in absolute value.
  pub divide-modulo :
      eq_ℤ b (pos 0) ≡ false
      → fits_int32 (quot_ℤ a b) ≡ true
      → (q r : ℤ) × (divide fp (suc n) h (int32 a) (int32 b) ≡ done (int32 q))
        × (modulo fp (suc n) h (int32 a) (int32 b) ≡ done (int32 r))
        × (q *ℤ b +ℤ r ≡ a)
        × (pos_part r + neg_part r < pos_part b + neg_part b)
  unfolding follow divide modulo divide_values modulo_values
  divide-modulo ne fits =
      (quot_ℤ a b, rem_ℤ a b, rw (ne, fits), rw (ne, fits), quot-rem a b, rem-lt a b ne)

module _ (fp : DoubleOps) (n : ℕ) (h : HeapStorage) (a : ℤ) where
  -- On an integer the compound assignment `%=` gives what `/=` gives, whatever the right operand is.
  pub modulo_assign-eq-divide_assign :
      (arg : FastValue) → modulo_assign fp n h (int32 a) arg ≡ divide_assign fp n h (int32 a) arg
  unfolding modulo_assign divide_assign write_through modulo_assign_values divide_values
  modulo_assign-eq-divide_assign arg = assigned n arg
    where
      assigned :
          (k : ℕ) (arg : FastValue)
          → modulo_assign fp k h (int32 a) arg ≡ divide_assign fp k h (int32 a) arg
      assigned zero arg = refl
      assigned (suc k) arg = ground arith
