-- ===== src/Runtime/Vm/Collector/Reach.antt =====
-- What the mark phase of `Engine::try_mark_and_sweep` (src/runtime/vm.cpp) finds.
use minuet_lang_mirror.Base.{
  ℕ, zero, suc, ◌==◌, true, false, ◌≡◌, refl, sym, ap, ◌∙◌, ◌⊎◌, inl, inr, Option, none, some, List,
  [], ◌∷◌, ◌++◌, arith, if◌then◌else◌, get_elem?, done, >>=-eq-done, Bool-cases,
}
use minuet_lang_mirror.Runtime.Values.{Addr, FastValue, HeapValue, to_object_ptr}
use minuet_lang_mirror.Runtime.Objects.{items, is_sequence_object}
use minuet_lang_mirror.Runtime.HeapStorage.{HeapStorage, load}
use minuet_lang_mirror.Runtime.Vm.Collector.{contains, keep_child, children, mark}

-- The list at `q` holds a pointer to `p`.
pub record Holds (h : HeapStorage) (q p : Addr) : Type 0 where
  pub object : HeapValue
  pub place : ℕ
  pub value : FastValue
  pub stands : load h q ≡ done object
  pub list : is_sequence_object object ≡ true
  pub at_place : get_elem? (items object) place ≡ some value
  pub pointer : to_object_ptr value ≡ some p

-- A chain of such pointers leads from one of the roots to `p`.
pub data Reaches (h : HeapStorage) (roots : List Addr) : Addr → Type 0 where
  root : {p : Addr} → contains roots p ≡ true → Reaches h roots p
  held : {q p : Addr} → Reaches h roots q → Holds h q p → Reaches h roots p

contains-append_left :
    (ps qs : List Addr) (r : Addr) → contains ps r ≡ true → contains (ps ++ qs) r ≡ true
contains-append_left [] qs r e = absurd (cc)
contains-append_left (p ∷ ps) qs r e = elim (Bool-cases (p == r)) [
  | inl same ↦ rw same refl
  | inr other ↦ rw other (contains-append_left ps qs r (rw other at e))
]

contains-append_right :
    (ps qs : List Addr) (r : Addr) → contains qs r ≡ true → contains (ps ++ qs) r ≡ true
contains-append_right [] qs r e = e
contains-append_right (p ∷ ps) qs r e = elim (Bool-cases (p == r)) [
  | inl same ↦ rw same refl
  | inr other ↦ rw other (contains-append_right ps qs r e)
]

keep_child_tail :
    (visited : List Addr) (o : Option Addr) (ps : List Addr) (r : Addr)
    → contains ps r ≡ true
    → contains (keep_child visited o ps) r ≡ true
keep_child_tail visited none ps r e = e
keep_child_tail visited (some p) ps r e = elim (Bool-cases (contains visited p)) [
  | inl seen ↦ rw seen e
  | inr fresh ↦ rw fresh (contains-append_right (p ∷ []) ps r e)
]

contains-children :
    (visited : List Addr) (vs : List FastValue) (i : ℕ) (v : FastValue) (r : Addr)
    → get_elem? vs i ≡ some v
    → to_object_ptr v ≡ some r
    → contains visited r ≡ false
    → contains (children visited vs) r ≡ true
unfolding children
contains-children visited [] i v r there pointer fresh = absurd (cc)
contains-children visited (w ∷ vs) zero v r there pointer fresh =
    let same : w ≡ v = cc in
    let points : to_object_ptr w ≡ some r = ap to_object_ptr same ∙ pointer in
    let here : (r == r) ≡ true = ground arith in rw (points, fresh, here) refl
contains-children visited (w ∷ vs) (suc i) v r there pointer fresh =
    keep_child_tail visited (to_object_ptr w) (children visited vs) r
      (contains-children visited vs i v r there pointer fresh)

-- What is held by a visited list is visited or waits in the frontier.
abbrev Traced : HeapStorage → List Addr → List Addr → Type 0
Traced h visited frontier =
    (q p : Addr)
    → contains visited q ≡ true
    → Holds h q p
    → (contains visited p ≡ true) ⊎ (contains frontier p ≡ true)

contains_later :
    (visited : List Addr) (p r : Addr) → contains visited r ≡ true → contains (p ∷ visited) r ≡ true
contains_later visited p r e = contains-append_right (p ∷ []) visited r e

contains_head :
    (visited : List Addr) (p r : Addr) → (p == r) ≡ true → contains (p ∷ visited) r ≡ true
contains_head visited p r same = rw same refl

found : List Addr → HeapValue → List Addr
found visited o = if is_sequence_object o then children visited (items o) else []

module _ (h : HeapStorage) (visited : List Addr) (p : Addr) (ps : List Addr) (o : HeapValue)
    (loaded : load h p ≡ done o) where
  Traced-head :
      (r : Addr)
      → Holds h p r
      → (contains (p ∷ visited) r ≡ true) ⊎ (contains (ps ++ found visited o) r ≡ true)
  unfolding found
  Traced-head r holds = elim (Bool-cases (contains visited r)) [
    | inl seen ↦ inl (contains_later visited p r seen)
    | inr fresh ↦
        let same : holds.object ≡ o = ground (arith, holds.stands, loaded) in
        let list : is_sequence_object o ≡ true = ap is_sequence_object (sym same) ∙ holds.list in
        let there : get_elem? (items o) holds.place ≡ some holds.value =
          ap (λ x. get_elem? (items x) holds.place) (sym same) ∙ holds.at_place in
        let child =
          contains-children visited (items o) holds.place holds.value r there holds.pointer fresh in
        inr (contains-append_right ps (found visited o) r (rw list child))
  ]

  Traced-round : Traced h visited (p ∷ ps) → Traced h (p ∷ visited) (ps ++ found visited o)
  Traced-round traced q r inside holds = elim (Bool-cases (p == q)) [
    | inl same ↦ let here : q ≡ p = ground (arith, same) in Traced-head r (rw here at holds)
    | inr other ↦ elim (traced q r (rw other at inside) holds) [
      | inl seen ↦ inl (contains_later visited p r seen)
      | inr waits ↦ elim (Bool-cases (p == r)) [
        | inl head ↦ inl (contains_head visited p r head)
        | inr tail ↦ inr (contains-append_left ps (found visited o) r (rw tail at waits))
      ]
    ]
  ]

-- What the loop leaves: all that was visited or waited is marked, and so is what the marked lists hold.
record Marked (h : HeapStorage) (visited frontier marked : List Addr) : Type 0 where
  all :
      (r : Addr)
      → (contains visited r ≡ true) ⊎ (contains frontier r ≡ true)
      → contains marked r ≡ true
  closed : Traced h marked []

no_more :
    (r : Addr) (visited : List Addr)
    → (contains visited r ≡ true) ⊎ (contains [] r ≡ true)
    → contains visited r ≡ true
no_more r visited (inl seen) = seen
no_more r visited (inr waits) = absurd (cc)

Marked-round :
    (h : HeapStorage) (visited : List Addr) (p : Addr) (ps qs marked : List Addr)
    → Marked h (p ∷ visited) (ps ++ qs) marked
    → Marked h visited (p ∷ ps) marked
Marked-round h visited p ps qs marked m = record { all = all; closed = m.closed }
  where
    all :
        (r : Addr)
        → (contains visited r ≡ true) ⊎ (contains (p ∷ ps) r ≡ true)
        → contains marked r ≡ true
    all r (inl seen) = m.all r (inl (contains_later visited p r seen))
    all r (inr waits) = elim (Bool-cases (p == r)) [
      | inl head ↦ m.all r (inl (contains_head visited p r head))
      | inr tail ↦ m.all r (inr (contains-append_left ps qs r (rw tail at waits)))
    ]

mark-Marked :
    (n : ℕ) (h : HeapStorage) (visited frontier marked : List Addr)
    → Traced h visited frontier
    → mark n h visited frontier ≡ done marked
    → Marked h visited frontier marked
unfolding mark found
mark-Marked n h visited [] marked traced ran =
    let same : visited ≡ marked = cc in
    rw (← same) (record { all = λ r e. no_more r visited e; closed = traced })
mark-Marked zero h visited (p ∷ ps) marked traced ran = absurd (cc)
mark-Marked (suc n) h visited (p ∷ ps) marked traced ran =
    let (o, loaded, rest) = >>=-eq-done (load h p) _ ran in
    Marked-round h visited p ps (found visited o) marked (
      mark-Marked n h (p ∷ visited) (ps ++ found visited o) marked
        (Traced-round h visited p ps o loaded traced) rest)

reached_by :
    (h : HeapStorage) (roots marked : List Addr) (p : Addr)
    → Marked h [] roots marked
    → Reaches h roots p
    → contains marked p ≡ true
reached_by h roots marked p m (root e) = m.all p (inr e)
reached_by h roots marked p m (held {q} r holds) =
    no_more p marked (m.closed q p (reached_by h roots marked q m r) holds)

-- A mark phase that ends has marked every object that the roots reach through pointers in lists,
-- however long the chain of lists is.
pub mark-Reaches :
    (n : ℕ) (h : HeapStorage) (roots marked : List Addr) (p : Addr)
    → mark n h [] roots ≡ done marked
    → Reaches h roots p
    → contains marked p ≡ true
mark-Reaches n h roots marked p ran reaches =
    reached_by h roots marked p (mark-Marked n h [] roots marked (λ q r e holds. absurd (cc)) ran)
      reaches
