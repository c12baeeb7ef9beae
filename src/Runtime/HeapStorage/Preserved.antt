-- ===== src/Runtime/HeapStorage/Preserved.antt =====
-- The invariant of the heap and the operations of src/runtime/heap_storage.cpp, whether they end or
-- fault.
use minuet_lang_mirror.Base.{◌≡◌, inl, inr, arith, Option-cases}
use minuet_lang_mirror.Base.Ensures
use minuet_lang_mirror.Base.Ensures.{Ensures, returned, faulted}
use native.Mathlib.Decide.{dec_lt}
use minuet_lang_mirror.Runtime.Values.{Addr, Ref, item, wild, FastValue, HeapValue}
use minuet_lang_mirror.Runtime.Objects.{set_item}
use minuet_lang_mirror.Runtime.HeapStorage.{HeapStorage, try_create_value, store_at, assign, load}
use minuet_lang_mirror.Runtime.HeapStorage.Invariant.{live, IsValid}
use minuet_lang_mirror.Runtime.HeapStorage.Creation.{
  try_create_value-Created, try_create_value_full,
}
use minuet_lang_mirror.Runtime.HeapStorage.Access.{store_at-done, replaced-IsValid}

pub try_create_value-Ensures :
    (h : HeapStorage) (o : HeapValue)
    → IsValid h
    → Ensures (λ x. IsValid x.1) (try_create_value h o)
try_create_value-Ensures h o v = elim (dec_lt (live h.objects) 1024) [
  | yes room ↦ let (p, h', e, c) = try_create_value-Created h o v room in rw e (returned c.valid)
  | no full ↦
      let all : live h.objects ≡ 1024 = omega (arith, v.counted, v.bounded) in
      rw (try_create_value_full h o v all) faulted
]

pub store_at-Ensures :
    (h : HeapStorage) (p : Addr) (o : HeapValue) → IsValid h → Ensures IsValid (store_at h p o)
store_at-Ensures h p o v = elim (Option-cases (h.store p)) [
  | inl missing ↦ unfold store_at in rw missing faulted
  | inr (old, there) ↦
      rw (store_at-done h p o old there) (returned (replaced-IsValid h p o old there v))
]

pub assign-Ensures :
    (h : HeapStorage) (r : Ref) (v : FastValue) → IsValid h → Ensures IsValid (assign h r v)
unfolding assign
assign-Ensures h wild v valid = faulted
assign-Ensures h (item p i) v valid =
    Ensures.bind (Ensures.any (load h p)) (λ o _. store_at-Ensures h p (set_item o i v) valid)
