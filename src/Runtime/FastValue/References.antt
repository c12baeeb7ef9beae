-- ===== src/Runtime/FastValue/References.antt =====
-- The operators of src/runtime/fast_value.cpp on references, on the left side and on the right one.
use minuet_lang_mirror.Base.{ℕ, zero, suc, ◌<◌, ◌≡◌, false, arith, Run, done}
use minuet_lang_mirror.Runtime.Values.{Ref, FastValue, dud, val_ref, DoubleOps, is_val_ref}
use minuet_lang_mirror.Runtime.HeapStorage.{HeapStorage, deref}
use minuet_lang_mirror.Runtime.FastValue.{
  follow, times, divide, modulo, plus, minus, times_values, divide_values, modulo_values,
  plus_values, minus_values,
}
use minuet_lang_mirror.Runtime.FastValue.Compare.{
  equal, values_equal, less, greater, at_most, at_least, values_less, values_greater,
  values_at_most, values_at_least,
}

-- From `v`, exactly `k` references lead to the value `t`, which is no reference.
pub data Refers (h : HeapStorage) (t : FastValue) : ℕ → FastValue → Type 0 where
  arrived : {k : ℕ} {v : FastValue} → k ≡ 0 → v ≡ t → is_val_ref t ≡ false → Refers h t k v
  through :
      {k : ℕ} {r : Ref} {v : FastValue}
      → deref h r ≡ done v
      → Refers h t k v
      → Refers h t (suc k) (val_ref r)

follow-plain {ℓ} :
    {A : Type ℓ} (op : FastValue → Run A) (n : ℕ) (h : HeapStorage) (t : FastValue)
    → is_val_ref t ≡ false
    → follow op (suc n) h t ≡ op t
unfolding follow
follow-plain op n h t plain = ground arith

follow-Refers {ℓ} :
    {A : Type ℓ} (op : FastValue → Run A) (n : ℕ) {h : HeapStorage} {t v : FastValue} {k : ℕ}
    → Refers h t k v
    → k < n
    → follow op n h v ≡ op t
unfolding follow
follow-Refers op zero r lt = elim lt [ ]
follow-Refers op (suc n) {h} {t} (arrived z same plain) lt = rw same (follow-plain op n h t plain)
follow-Refers op (suc n) (through e r) lt = rw e (follow-Refers op n r (omega arith))

equal-plain :
    (fp : DoubleOps) (n : ℕ) (h : HeapStorage) (t arg : FastValue)
    → is_val_ref t ≡ false
    → equal fp (suc n) h t arg ≡ values_equal fp (equal fp n h) h t arg
unfolding equal
equal-plain fp n h t arg plain = ground arith

module _ (fp : DoubleOps) (n : ℕ) {h : HeapStorage} {t v : FastValue} {k : ℕ} (arg : FastValue)
    (r : Refers h t k v) (deep : k < n) where
  -- With more fuel than the chain of references is long, the five arithmetic operators on a left
  -- operand that refers to `t` give what they give on `t` itself.
  pub arithmetic-Refers :
      (times fp n h v arg ≡ times_values fp t arg)
      × (divide fp n h v arg ≡ divide_values fp t arg)
      × (modulo fp n h v arg ≡ modulo_values fp t arg)
      × (plus fp n h v arg ≡ plus_values fp t arg)
      × (minus fp n h v arg ≡ minus_values fp t arg)
  unfolding times divide modulo plus minus
  arithmetic-Refers = (
    follow-Refers (λ x. times_values fp x arg) n r deep,
    follow-Refers (λ x. divide_values fp x arg) n r deep,
    follow-Refers (λ x. modulo_values fp x arg) n r deep,
    follow-Refers (λ x. plus_values fp x arg) n r deep,
    follow-Refers (λ x. minus_values fp x arg) n r deep,
  )

  -- With more fuel than the chain of references is long, the four orders on a left operand that
  -- refers to `t` give what they give on `t` itself.
  pub orders-Refers :
      (less fp n h v arg ≡ done (values_less fp t arg))
      × (greater fp n h v arg ≡ done (values_greater fp t arg))
      × (at_most fp n h v arg ≡ done (values_at_most fp t arg))
      × (at_least fp n h v arg ≡ done (values_at_least fp t arg))
  unfolding less greater at_most at_least
  orders-Refers = (
    follow-Refers (λ x. done (values_less fp x arg)) n r deep,
    follow-Refers (λ x. done (values_greater fp x arg)) n r deep,
    follow-Refers (λ x. done (values_at_most fp x arg)) n r deep,
    follow-Refers (λ x. done (values_at_least fp x arg)) n r deep,
  )

equal-right_ref :
    (fp : DoubleOps) (n : ℕ) {h : HeapStorage} {t v : FastValue} {k : ℕ} (q : Ref)
    → Refers h t k v
    → k < n
    → equal fp n h v (val_ref q) ≡ done false
unfolding equal values_equal
equal-right_ref fp zero q r lt = elim lt [ ]
equal-right_ref fp (suc n) {h} {t} q (arrived z same plain) lt = rw same (ground arith)
equal-right_ref fp (suc n) q (through e r) lt = rw e (equal-right_ref fp n q r (omega arith))

module _ (fp : DoubleOps) (n : ℕ) {h : HeapStorage} {t v : FastValue} {k : ℕ} (q : Ref)
    (r : Refers h t k v) (deep : k < n) where
  -- A reference on the right is never followed: whatever the left operand refers to, and whatever
  -- the right reference leads to, arithmetic gives `dud`, and `==` and the orders give `false`.
  pub right_reference :
      (times fp n h v (val_ref q) ≡ done dud)
      × (divide fp n h v (val_ref q) ≡ done dud)
      × (modulo fp n h v (val_ref q) ≡ done dud)
      × (plus fp n h v (val_ref q) ≡ done dud)
      × (minus fp n h v (val_ref q) ≡ done dud)
      × (equal fp n h v (val_ref q) ≡ done false)
      × (less fp n h v (val_ref q) ≡ done false)
      × (greater fp n h v (val_ref q) ≡ done false)
      × (at_most fp n h v (val_ref q) ≡ done false)
      × (at_least fp n h v (val_ref q) ≡ done false)
  unfolding times_values divide_values modulo_values plus_values minus_values values_less
      values_greater values_at_most values_at_least
  right_reference =
      let a = arithmetic-Refers fp n (val_ref q) r deep in
      let o = orders-Refers fp n (val_ref q) r deep in
      (
        ground (arith, a.0),
        ground (arith, a.1),
        ground (arith, a.2),
        ground (arith, a.3),
        ground (arith, a.4),
        equal-right_ref fp n q r deep,
        ground (arith, o.0),
        ground (arith, o.1),
        ground (arith, o.2),
        ground (arith, o.3),
      )
