-- ===== src/Runtime/FastValue/Equality.antt =====
-- `operator==` and the orders of src/runtime/fast_value.cpp on values that are no references.
use minuet_lang_mirror.Base.{
  ℕ, zero, suc, ◌<◌, ◌≡◌, refl, ℤ, Bool, true, false, ◌||◌, ◌&&◌, not, List, [], ◌∷◌, arith, length,
  Run, done, ltb_ℤ, eq_ℤ,
}
use minuet_lang_mirror.Runtime.Values.{
  Addr, FastValue, boolean, chr8, int32, string, sequence, HeapValue, sequence_value, string_value,
  DoubleOps,
}
use minuet_lang_mirror.Runtime.Objects.{items, get_size, same_tag, items_eq, object_eq}
use minuet_lang_mirror.Runtime.HeapStorage.{HeapStorage, load}
use minuet_lang_mirror.Runtime.FastValue.Compare.{
  equal, values_equal, compare_objects, less, at_most, greater, at_least,
}

-- A value that can be compared with itself: a Boolean, a character, an integer, or an object whose
-- items are such values, nested at most `k` deep.
mutual
  pub data Comparable (h : HeapStorage) : ℕ → FastValue → Type 0 where
    flag : {k : ℕ} (b : Bool) → Comparable h k (boolean b)
    char : {k : ℕ} (c : ℤ) → Comparable h k (chr8 c)
    int : {k : ℕ} (i : ℤ) → Comparable h k (int32 i)
    list :
        {k : ℕ} {o : HeapValue} (p : Addr)
        → load h p ≡ done o
        → get_size o ≡ length (items o)
        → AllComparable h k (items o)
        → Comparable h (suc k) (sequence p)
    text :
        {k : ℕ} {o : HeapValue} (p : Addr)
        → load h p ≡ done o
        → get_size o ≡ length (items o)
        → AllComparable h k (items o)
        → Comparable h (suc k) (string p)

  pub data AllComparable (h : HeapStorage) : ℕ → List FastValue → Type 0 where
    none_left : {k : ℕ} → AllComparable h k []
    one_more :
        {k : ℕ} {v : FastValue} {vs : List FastValue}
        → Comparable h k v
        → AllComparable h k vs
        → AllComparable h k (v ∷ vs)

same_tag_refl : (o : HeapValue) → same_tag o o ≡ true
unfolding same_tag
same_tag_refl (sequence_value s) = refl
same_tag_refl (string_value s) = refl

compare_same :
    (eq : FastValue → FastValue → Run Bool) (h : HeapStorage) (p : Addr) (o : HeapValue)
    → load h p ≡ done o
    → get_size o ≡ length (items o)
    → items_eq eq (length (items o)) (items o) (items o) ≡ done true
    → compare_objects eq h p p ≡ done true
unfolding compare_objects object_eq
compare_same eq h p o loaded sized e = rw loaded (ground (arith, same_tag_refl o, e))

mutual
  unfolding equal values_equal items_eq

  equal_self :
      (fp : DoubleOps) (n : ℕ) {h : HeapStorage} {k : ℕ} {v : FastValue}
      → Comparable h k v
      → k < n
      → equal fp n h v v ≡ done true
  equal_self fp zero c lt = elim lt [ ]
  equal_self fp (suc n) (flag b) lt = ground arith
  equal_self fp (suc n) (char c) lt = ground arith
  equal_self fp (suc n) (int i) lt = ground arith
  equal_self fp (suc n) {h} (list {o} p loaded sized all) lt =
      compare_same (equal fp n h) h p o loaded sized (items_self fp n all (omega arith))
  equal_self fp (suc n) {h} (text {o} p loaded sized all) lt =
      compare_same (equal fp n h) h p o loaded sized (items_self fp n all (omega arith))

  items_self :
      (fp : DoubleOps) (n : ℕ) {h : HeapStorage} {k : ℕ} {vs : List FastValue}
      → AllComparable h k vs
      → k < n
      → items_eq (equal fp n h) (length vs) vs vs ≡ done true
  items_self fp n none_left lt = refl
  items_self fp n (one_more c all) lt = rw (equal_self fp n c lt) (items_self fp n all lt)

-- With more fuel than the value is nested, a comparable value equals itself.
pub equal-Comparable :
    (fp : DoubleOps) (n : ℕ) {h : HeapStorage} {k : ℕ} {v : FastValue}
    → Comparable h k v
    → k < n
    → equal fp n h v v ≡ done true
equal-Comparable fp n c lt = equal_self fp n c lt

-- On two integers the six comparisons agree: `l`, `e` and `g` are the results of `<`, `==` and `>`, one
-- of them holds and no two do, `<=` is the negation of `>`, and `>=` is the negation of `<`.
pub comparisons_agree :
    (fp : DoubleOps) (n : ℕ) (h : HeapStorage) (a b : ℤ)
    → (l e g : Bool) × (less fp (suc n) h (int32 a) (int32 b) ≡ done l)
      × (equal fp (suc n) h (int32 a) (int32 b) ≡ done e)
      × (greater fp (suc n) h (int32 a) (int32 b) ≡ done g)
      × (at_most fp (suc n) h (int32 a) (int32 b) ≡ done (not g))
      × (at_least fp (suc n) h (int32 a) (int32 b) ≡ done (not l))
      × (e ≡ not (l || g))
      × ((l && g) ≡ false)
unfolding less equal greater at_most at_least
comparisons_agree fp n h a b = (
  ltb_ℤ a b,
  eq_ℤ a b,
  ltb_ℤ b a,
  refl,
  refl,
  refl,
  ground arith,
  ground arith,
  ground arith,
  ground arith,
)
