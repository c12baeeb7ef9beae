-- ===== src/Runtime/Vm/Collector/Mark.antt =====
-- The mark phase of `Engine::try_mark_and_sweep` (src/runtime/vm.cpp) and its fuel.
use minuet_lang_mirror.Base.{
  ℕ, zero, suc, ◌+◌, ◌<◌, ◌≤◌, ◌==◌, Bool, true, false, ◌≡◌, refl, ap, inl, inr, some, List, [],
  ◌∷◌, ◌++◌, arith, if◌then◌else◌, done, Bool-cases, Option-cases,
}
use minuet_lang_mirror.Runtime.Values.{Addr, FastValue, HeapValue, to_object_ptr}
use minuet_lang_mirror.Runtime.Objects.{items, is_sequence_object}
use minuet_lang_mirror.Runtime.HeapStorage.{HeapStorage, load}
use minuet_lang_mirror.Runtime.HeapStorage.Invariant.{All, IsValid}
use minuet_lang_mirror.Runtime.Vm.Collector.{contains, children, mark}

-- An object stands at the address.
abbrev pub Stands : HeapStorage → Addr → Type 0
Stands h p = (o : HeapValue) × (load h p ≡ done o)

-- An object pointer among the values leads to an object.
abbrev pub Leads : HeapStorage → FastValue → Type 0
Leads h v = (q : Addr) → to_object_ptr v ≡ some q → Stands h q

-- No object holds a pointer to a deleted one.
unfoldable pub IsClosed : HeapStorage → Type 0
IsClosed h = (p : Addr) (o : HeapValue) → load h p ≡ done o → All (Leads h) (items o)

weight : Bool → ℕ
weight seen = if seen then 0 else 1

-- The addresses below `n` that are not visited.
unvisited : ℕ → List Addr → ℕ
unfolding weight
unvisited zero visited = 0
unvisited (suc n) visited = weight (contains visited n) + unvisited n visited

-- The entries of the frontier that are visited.
stale : List Addr → List Addr → ℕ
stale visited [] = 0
stale visited (p ∷ ps) = (if contains visited p then 1 else 0) + stale visited ps

unvisited_more :
    (n : ℕ) (visited : List Addr) (p : Addr) → unvisited n (p ∷ visited) ≤ unvisited n visited
unfolding unvisited weight
unvisited_more zero visited p = omega arith
unvisited_more (suc n) visited p = elim (Bool-cases (p == n)) [
  | inl same ↦ rw same (omega (arith, unvisited_more n visited p))
  | inr other ↦ rw other (omega (arith, unvisited_more n visited p))
]

unvisited_fresh :
    (n : ℕ) (visited : List Addr) (p : Addr)
    → p < n
    → contains visited p ≡ false
    → unvisited n (p ∷ visited) < unvisited n visited
unfolding unvisited weight
unvisited_fresh zero visited p h fresh = elim h [ ]
unvisited_fresh (suc n) visited p h fresh = elim (Bool-cases (p == n)) [
  | inl same ↦
      let here : p ≡ n = ground (arith, same) in
      let new : contains visited n ≡ false = rw (← here) fresh in
      rw (same, new) (omega (arith, unvisited_more n visited p))
  | inr other ↦
      let below : p < n = ground (arith, other, h) in
      rw other (omega (arith, unvisited_fresh n visited p below fresh))
]

stale-append :
    (visited ps qs : List Addr) → stale visited (ps ++ qs) ≡ stale visited ps + stale visited qs
unfolding stale
stale-append visited [] qs = omega arith
stale-append visited (p ∷ ps) qs = omega (arith, stale-append visited ps qs)

-- An address that is visited again makes no entry stale.
stale_again :
    (visited : List Addr) (p : Addr) (ps : List Addr)
    → contains visited p ≡ true
    → stale (p ∷ visited) ps ≡ stale visited ps
unfolding stale
stale_again visited p [] seen = refl
stale_again visited p (q ∷ qs) seen = elim (Bool-cases (p == q)) [
  | inl same ↦
      let here : p ≡ q = ground (arith, same) in
      let old : contains visited q ≡ true = rw (← here) seen in
      rw (same, old) (ap (λ n. 1 + n) (stale_again visited p qs seen))
  | inr other ↦
      rw other (ap (λ n. (if contains visited q then 1 else 0) + n) (stale_again visited p qs seen))
]

stale-children :
    (visited : List Addr) (vs : List FastValue) → stale visited (children visited vs) ≡ 0
unfolding stale children
stale-children visited [] = refl
stale-children visited (v ∷ vs) = elim (Option-cases (to_object_ptr v)) [
  | inl none_there ↦ rw none_there (stale-children visited vs)
  | inr (q, there) ↦ elim (Bool-cases (contains visited q)) [
    | inl seen ↦ rw (there, seen) (stale-children visited vs)
    | inr fresh ↦ rw (there, fresh, fresh) (omega (arith, stale-children visited vs))
  ]
]

children-Stands :
    (h : HeapStorage) (visited : List Addr) (vs : List FastValue)
    → All (Leads h) vs
    → All (Stands h) (children visited vs)
unfolding children
children-Stands h visited [] all = tt
children-Stands h visited (v ∷ vs) (leads, all) = elim (Option-cases (to_object_ptr v)) [
  | inl none_there ↦ rw none_there (children-Stands h visited vs all)
  | inr (q, there) ↦ elim (Bool-cases (contains visited q)) [
    | inl seen ↦ rw (there, seen) (children-Stands h visited vs all)
    | inr fresh ↦ rw (there, fresh) (leads q there, children-Stands h visited vs all)
  ]
]

append-Stands :
    (h : HeapStorage) (ps qs : List Addr)
    → All (Stands h) ps
    → All (Stands h) qs
    → All (Stands h) (ps ++ qs)
append-Stands h [] qs a b = b
append-Stands h (p ∷ ps) qs (s, a) b = (s, append-Stands h ps qs a b)

-- The loop ends: some fuel is enough.
abbrev pub Ends : HeapStorage → List Addr → List Addr → Type 0
Ends h visited frontier = (n : ℕ) × (marked : List Addr) × (mark n h visited frontier ≡ done marked)

found : List Addr → HeapValue → List Addr
found visited o = if is_sequence_object o then children visited (items o) else []

stale-found : (visited : List Addr) (o : HeapValue) → stale visited (found visited o) ≡ 0
unfolding found stale
stale-found visited o = elim (Bool-cases (is_sequence_object o)) [
  | inl list ↦ rw list (stale-children visited (items o))
  | inr text ↦ rw text refl
]

module _ (h : HeapStorage) (v : IsValid h) (closed : IsClosed h) where
  found-Stands :
      (visited : List Addr) (p : Addr) (o : HeapValue)
      → load h p ≡ done o
      → All (Stands h) (found visited o)
  unfolding found IsClosed
  found-Stands visited p o loaded = elim (Bool-cases (is_sequence_object o)) [
    | inl list ↦ rw list (children-Stands h visited (items o) (closed p o loaded))
    | inr text ↦ rw text tt
  ]

  Stands-lt : (p : Addr) (o : HeapValue) → load h p ≡ done o → p < h.next_addr
  unfolding load
  Stands-lt p o loaded = ground (arith, v.unborn p)

  round :
      (visited : List Addr) (p : Addr) (frontier : List Addr) (o : HeapValue)
      → load h p ≡ done o
      → Ends h (p ∷ visited) (frontier ++ found visited o)
      → Ends h visited (p ∷ frontier)
  unfolding mark found
  round visited p frontier o loaded (n, marked, ran) = (suc n, marked, rw loaded ran)

  -- The loop ends from every state with fewer than `u` addresses to visit.
  abbrev EndsBelow : ℕ → Type 0
  EndsBelow u =
      (visited frontier : List Addr)
      → unvisited h.next_addr visited < u
      → All (Stands h) frontier
      → Ends h visited frontier

  after_fresh :
      (u : ℕ) (visited : List Addr) (p : Addr) (ps : List Addr) (o : HeapValue)
      → EndsBelow u
      → unvisited h.next_addr visited ≤ u
      → load h p ≡ done o
      → All (Stands h) ps
      → contains visited p ≡ false
      → Ends h visited (p ∷ ps)
  after_fresh u visited p ps o fewer few loaded stands fresh = round visited p ps o loaded (
      fewer (p ∷ visited) (ps ++ found visited o)
        (omega (arith, unvisited_fresh h.next_addr visited p (Stands-lt p o loaded) fresh, few))
        (append-Stands h ps (found visited o) stands (found-Stands visited p o loaded)))

  stale_round :
      (visited : List Addr) (p : Addr) (ps : List Addr) (o : HeapValue)
      → contains visited p ≡ true
      → stale (p ∷ visited) (ps ++ found visited o) + 1 ≡ stale visited (p ∷ ps)
  unfolding stale
  stale_round visited p ps o seen =
      let again = stale_again visited p (ps ++ found visited o) seen in
      let both = stale-append visited ps (found visited o) in
      rw seen (omega (arith, again, both, stale-found visited o))

  -- A round on a visited entry leaves one stale entry less.
  after_stale :
      (u : ℕ) (fewer : EndsBelow u) (k : ℕ) (visited frontier : List Addr)
      → unvisited h.next_addr visited ≤ u
      → stale visited frontier ≤ k
      → All (Stands h) frontier
      → Ends h visited frontier
  unfolding mark
  after_stale u fewer k visited [] few short stands = (0, visited, refl)
  after_stale u fewer zero visited (p ∷ ps) few short ((o, loaded), stands) =
      elim (Bool-cases (contains visited p)) [
        | inr fresh ↦ after_fresh u visited p ps o fewer few loaded stands fresh
        | inl seen ↦ absurd (omega (arith, short, stale_round visited p ps o seen))
      ]
  after_stale u fewer (suc k) visited (p ∷ ps) few short ((o, loaded), stands) =
      elim (Bool-cases (contains visited p)) [
        | inr fresh ↦ after_fresh u visited p ps o fewer few loaded stands fresh
        | inl seen ↦ round visited p ps o loaded (
            after_stale u fewer k (p ∷ visited) (ps ++ found visited o)
              (omega (arith, unvisited_more h.next_addr visited p, few))
              (omega (arith, short, stale_round visited p ps o seen))
              (append-Stands h ps (found visited o) stands (found-Stands visited p o loaded)))
      ]

  loop_below : (u : ℕ) → EndsBelow u
  loop_below zero visited frontier few stands = absurd (omega (arith, few))
  loop_below (suc u) visited frontier few stands =
      after_stale u (loop_below u) (stale visited frontier) visited frontier (omega (arith, few))
        (omega arith) stands

  -- On a valid heap in which no object holds a pointer to a deleted one, the mark phase ends, from any
  -- addresses at which objects stand, also where lists contain themselves or each other: some
  -- number of rounds is enough.
  pub mark-Ends : (frontier : List Addr) → All (Stands h) frontier → Ends h [] frontier
  mark-Ends frontier stands =
      loop_below (suc (unvisited h.next_addr [])) [] frontier (omega arith) stands
