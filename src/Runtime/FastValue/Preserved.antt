-- ===== src/Runtime/FastValue/Preserved.antt =====
-- The invariant of the heap and the operators of src/runtime/fast_value.cpp that write.
use minuet_lang_mirror.Base.{ℕ, zero, suc, Run}
use minuet_lang_mirror.Base.Ensures
use minuet_lang_mirror.Base.Ensures.{Ensures, returned, faulted}
use minuet_lang_mirror.Runtime.Values.{FastValue, boolean, val_ref}
use minuet_lang_mirror.Runtime.HeapStorage.{HeapStorage, deref}
use minuet_lang_mirror.Runtime.HeapStorage.Invariant.{IsValid}
use minuet_lang_mirror.Runtime.HeapStorage.Preserved.{assign-Ensures}
use minuet_lang_mirror.Runtime.FastValue.Assign.{write_through, negate, emplace_other}

pub write_through-Ensures :
    (op : FastValue → Run FastValue) (n : ℕ) (h : HeapStorage) (v : FastValue)
    → IsValid h
    → Ensures (λ x. IsValid x.1) (write_through op n h v)
unfolding write_through
write_through-Ensures op zero h v valid = faulted
write_through-Ensures op (suc n) h (val_ref r) valid = Ensures.bind (Ensures.any (deref h r)) λ t _.
    Ensures.bind (write_through-Ensures op n h t valid)
      λ x valid'. Ensures.bind (assign-Ensures x.1 r x.0 valid') λ h'' valid''. returned valid''
write_through-Ensures op (suc n) h v valid = Ensures.bind (Ensures.any (op v)) λ w _. returned valid

pub negate-Ensures :
    (n : ℕ) (h : HeapStorage) (v : FastValue)
    → IsValid h
    → Ensures (λ x. IsValid x.2) (negate n h v)
unfolding negate
negate-Ensures zero h v valid = faulted
negate-Ensures (suc n) h (val_ref r) valid = Ensures.bind (Ensures.any (deref h r)) λ t _.
    Ensures.bind (negate-Ensures n h t valid)
      λ x valid'. Ensures.bind (assign-Ensures x.2 r x.1 valid') λ h'' valid''. returned valid''
negate-Ensures (suc n) h (boolean b) valid = returned valid
negate-Ensures (suc n) h v valid = returned valid

pub emplace_other-Ensures :
    (n : ℕ) (h : HeapStorage) (self arg : FastValue)
    → IsValid h
    → Ensures (λ x. IsValid x.2) (emplace_other n h self arg)
unfolding emplace_other
emplace_other-Ensures zero h self arg valid = faulted
emplace_other-Ensures (suc n) h (val_ref r) (val_ref q) valid = returned valid
emplace_other-Ensures (suc n) h (val_ref r) arg valid =
    Ensures.bind (Ensures.any (deref h r)) λ t _.
      Ensures.bind (emplace_other-Ensures n h t arg valid)
        λ x valid'. Ensures.bind (assign-Ensures x.2 r x.1 valid') λ h'' valid''. returned valid''
emplace_other-Ensures (suc n) h self (val_ref q) valid =
    Ensures.bind (Ensures.any (deref h q))
      λ s _. Ensures.bind (emplace_other-Ensures n h self s valid) λ x valid'. returned valid'
emplace_other-Ensures (suc n) h self arg valid = returned valid
