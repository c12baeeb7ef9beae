-- ===== src/Runtime/FastValue/Aliasing.antt =====
-- The operations of src/runtime/fast_value.cpp that write through a reference.
use minuet_lang_mirror.Base.{
  ℕ, suc, ◌≡◌, refl, ◌∙◌, Bool, true, false, not, arith, Run, done, ◌>>=◌,
}
use minuet_lang_mirror.Runtime.Values.{Ref, FastValue, boolean, val_ref, is_val_ref}
use minuet_lang_mirror.Runtime.HeapStorage.{HeapStorage, deref, assign}
use minuet_lang_mirror.Runtime.HeapStorage.Access.{Assigned, assign-Assigned}
use minuet_lang_mirror.Runtime.FastValue.Assign.{write_through, negate, emplace_other}

write_through-plain :
    (op : FastValue → Run FastValue) (n : ℕ) (h : HeapStorage) (t w : FastValue)
    → is_val_ref t ≡ false
    → op t ≡ done w
    → write_through op (suc n) h t ≡ done (w, h)
unfolding write_through
write_through-plain op n h t w plain e = ground (arith, e)

-- A compound assignment on a reference to a plain value keeps the reference and changes the item.
pub write_through-Assigned :
    (op : FastValue → Run FastValue) (n : ℕ) (h : HeapStorage) (r : Ref) {t w : FastValue}
    → deref h r ≡ done t
    → is_val_ref t ≡ false
    → op t ≡ done w
    → (h' : HeapStorage) × (write_through op (suc (suc n)) h (val_ref r) ≡ done (val_ref r, h'))
      × Assigned h r w h'
unfolding write_through
write_through-Assigned op n h r {t} {w} e plain made =
    let (h', stored, a) = assign-Assigned h r w e in
    (h', rw (e, write_through-plain op n h t w plain made, stored), a)

emplace-plain :
    (n : ℕ) (h : HeapStorage) (t v : FastValue)
    → is_val_ref t ≡ false
    → is_val_ref v ≡ false
    → emplace_other (suc n) h t v ≡ done (true, v, h)
unfolding emplace_other
emplace-plain n h t v pt pv = ground arith

emplace-step :
    (n : ℕ) (h : HeapStorage) (r : Ref) (v : FastValue)
    → is_val_ref v ≡ false
    → emplace_other (suc n) h (val_ref r) v ≡ (
        deref h r >>= λ target.
        emplace_other n h target v >>= λ x. assign x.2 r x.1 >>= λ h''. done (x.0, val_ref r, h''))
unfolding emplace_other
emplace-step n h r (val_ref q) pv = absurd (cc)
emplace-step n h r _ pv = refl

-- `emplace_other` of a plain value on a reference to a plain value writes the item: the reference
-- stays, the item has the new value, and every other reference reads what it read before.
pub emplace_other-Assigned :
    (n : ℕ) (h : HeapStorage) (r : Ref) {t : FastValue} (v : FastValue)
    → deref h r ≡ done t
    → is_val_ref t ≡ false
    → is_val_ref v ≡ false
    → (h' : HeapStorage) × (emplace_other (suc (suc n)) h (val_ref r) v
        ≡ done (true, val_ref r, h'))
      × Assigned h r v h'
emplace_other-Assigned n h r {t} v e pt pv =
    let (h', stored, a) = assign-Assigned h r v e in
    (h', emplace-step (suc n) h r v pv ∙ rw (e, emplace-plain n h t v pt pv, stored), a)

-- `negate` on a reference to a Boolean flips the item and says so.
pub negate-Assigned :
    (n : ℕ) (h : HeapStorage) (r : Ref) (b : Bool)
    → deref h r ≡ done (boolean b)
    → (h' : HeapStorage) × (negate (suc (suc n)) h (val_ref r) ≡ done (true, val_ref r, h'))
      × Assigned h r (boolean (not b)) h'
unfolding negate
negate-Assigned n h r b e =
    let (h', stored, a) = assign-Assigned h r (boolean (not b)) e in (h', rw (e, stored), a)
