-- ===== src/Runtime/HeapStorage/Access.antt =====
-- Reads and writes through pointers to objects and to items (`FastValue*` of
-- src/runtime/fast_value.hpp).
use minuet_lang_mirror.Base.{
  ℕ, ◌≡◌, refl, ◌≢◌, inl, inr, some, arith, ◌==◌, get_elem?, set, get_elem?-set_self,
  get_elem?-set_ne, lt_of_get_elem?, Bool-cases, Option-cases, done,
}
use minuet_lang_mirror.Runtime.Values.{
  Addr, Ref, item, wild, FastValue, HeapValue, sequence_value, string_value,
}
use minuet_lang_mirror.Runtime.Objects.{items, set_item}
use minuet_lang_mirror.Runtime.HeapStorage.{HeapStorage, update, load, store_at, deref, assign}
use minuet_lang_mirror.Runtime.HeapStorage.Invariant.{IsValid}

items-set_item :
    (o : HeapValue) (i : ℕ) (v : FastValue) → items (set_item o i v) ≡ set (items o) i v
unfolding items set_item
items-set_item (sequence_value s) i v = refl
items-set_item (string_value s) i v = refl

-- An object is replaced by another at an address in use.
abbrev pub replaced : HeapStorage → Addr → HeapValue → HeapStorage
replaced h p o = record h { store = update h.store p (some o) }

pub replaced-IsValid :
    (h : HeapStorage) (p : Addr) (o old : HeapValue)
    → h.store p ≡ some old
    → IsValid h
    → IsValid (replaced h p o)
replaced-IsValid h p o old holds v = record {
  capacity = v.capacity;
  bounded = v.bounded;
  scored = v.scored;
  counted = v.counted;
  holes_empty = v.holes_empty;
  holes_distinct = v.holes_distinct;
  beyond_empty = v.beyond_empty;
  owned = λ i q f. ground (arith, v.owned i q f);
  unique = v.unique;
  unborn = λ q lo. ground (arith, v.unborn q lo);
}

pub store_at-done :
    (h : HeapStorage) (p : Addr) (o old : HeapValue)
    → h.store p ≡ some old
    → store_at h p o ≡ done (replaced h p o)
unfolding store_at
store_at-done h p o old holds = rw holds

-- What a write through an item pointer promises.
pub record Assigned (h : HeapStorage) (r : Ref) (v : FastValue) (h' : HeapStorage) : Type 0 where
  pub now : deref h' r ≡ done v
  pub others : (q : Ref) → q ≢ r → deref h' q ≡ deref h q
  pub valid : IsValid h → IsValid h'

deref-loaded :
    (h : HeapStorage) (p : Addr) (i : ℕ) {t : FastValue}
    → deref h (item p i) ≡ done t
    → (o : HeapValue) × (h.store p ≡ some o) × (get_elem? (items o) i ≡ some t)
unfolding deref load
deref-loaded h p i e = elim (Option-cases (h.store p)) [
  | inl missing ↦ absurd (ground arith)
  | inr (o, holds) ↦ elim (Option-cases (get_elem? (items o) i)) [
    | inl missing ↦ absurd (ground arith)
    | inr (t, there) ↦ (o, holds, ground arith)
  ]
]

module _ (h : HeapStorage) (p : Addr) (i : ℕ) (o : HeapValue) (t v : FastValue)
    (holds : h.store p ≡ some o) (there : get_elem? (items o) i ≡ some t) where
  written : HeapStorage
  written = replaced h p (set_item o i v)

  now_written : deref written (item p i) ≡ done v
  unfolding deref load written
  now_written = ground (
    arith,
    items-set_item o i v,
    get_elem?-set_self (items o) i v (lt_of_get_elem? (items o) i there),
  )

  others_written : (q : Ref) → q ≢ item p i → deref written q ≡ deref h q
  unfolding deref load written
  others_written wild ne = refl
  others_written (item q j) ne = elim (Bool-cases (q == p)) [
    | inl same ↦
        let same' : q ≡ p = ground arith in
        let other : i ≢ j = λ x. ne (ground arith) in
        ground (arith, items-set_item o i v, get_elem?-set_ne (items o) i j v other)
    | inr apart ↦ ground arith
  ]

  Assigned-written :
      (h' : HeapStorage) × (assign h (item p i) v ≡ done h') × Assigned h (item p i) v h'
  unfolding assign load written
  Assigned-written = (
    written,
    rw holds,
    record {
      now = now_written;
      others = others_written;
      valid = replaced-IsValid h p (set_item o i v) o holds;
    },
  )

-- An item that can be read can be written: it has the new value, every other reference reads what it
-- read before, and a valid heap stays valid.
pub assign-Assigned :
    (h : HeapStorage) (r : Ref) (v : FastValue) {t : FastValue}
    → deref h r ≡ done t
    → (h' : HeapStorage) × (assign h r v ≡ done h') × Assigned h r v h'
unfolding deref
assign-Assigned h wild v e = cc
assign-Assigned h (item p i) v {t} e =
    let (o, holds, there) = deref-loaded h p i e in Assigned-written h p i o t v holds there
