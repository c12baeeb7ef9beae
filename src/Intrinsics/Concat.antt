-- ===== src/Intrinsics/Concat.antt =====
-- What `native_list_concat` of src/mintrinsics/mnl_lists.cpp does to its two lists.
use minuet_lang_mirror.Base.{
  suc, ◌+◌, ℤ, pos, ◌==◌, true, false, ◌≡◌, ◌≢◌, refl, ap, ◌∙◌, some, List, [], ◌∷◌, ◌++◌, length,
  arith, done,
}
use minuet_lang_mirror.Runtime.Values.{Addr, FastValue, sequence, SequenceValue, sequence_value}
use minuet_lang_mirror.Runtime.Objects.{items, is_sequence_object, is_frozen, push_value}
use minuet_lang_mirror.Runtime.Objects.Sequence
use minuet_lang_mirror.Runtime.HeapStorage.{HeapStorage, load}
use minuet_lang_mirror.Runtime.HeapStorage.Access.{replaced}
use minuet_lang_mirror.Runtime.Vm.Engine.{Engine}
use minuet_lang_mirror.Runtime.Vm.Control.{handle_native_fn_access}
use minuet_lang_mirror.Intrinsics.Lists.{
  is_open, push_items, append_to, concat_objects, native_list_concat,
}

-- The list `t` with the items of `s` behind its own.
abbrev pub joined : SequenceValue → SequenceValue → SequenceValue
joined t s = record t { items = t.items ++ s.items; length = t.length + length s.items }

append_assoc :
    {A : Type 0} (xs : List A) (v : A) (vs : List A) → (xs ++ v ∷ []) ++ vs ≡ xs ++ v ∷ vs
append_assoc [] v vs = refl
append_assoc (x ∷ xs) v vs = ap (◌∷◌ x) (append_assoc xs v vs)

append_nil : {A : Type 0} (xs : List A) → xs ++ [] ≡ xs
append_nil [] = refl
append_nil (x ∷ xs) = ap (◌∷◌ x) (append_nil xs)

push_items_lem :
    (t : SequenceValue) (vs : List FastValue)
    → push_items (sequence_value t) vs
      ≡ sequence_value (record t { items = t.items ++ vs; length = t.length + length vs })
unfolding push_items push_value Sequence.push_value
push_items_lem t [] =
    let size : t.length + 0 ≡ t.length = omega arith in rw (append_nil t.items, size) refl
push_items_lem t (v ∷ vs) =
    let size : t.length + 1 + length vs ≡ t.length + suc (length vs) = omega arith in
    push_items_lem (record t { items = t.items ++ v ∷ []; length = t.length + 1 }) vs
    ∙ rw (append_assoc t.items v vs, size) refl

-- Where the first argument is a list that is not frozen and the second is another list,
-- `native_list_concat` succeeds: the first list gets the items of the second one behind its own, and
-- every other object, the second list too, is what it was.
pub native_list_concat-joined :
    (e : Engine) (argc : ℤ) (p q : Addr) (t s : SequenceValue)
    → handle_native_fn_access e argc (pos 0) ≡ done (sequence p)
    → handle_native_fn_access e argc (pos 1) ≡ done (sequence q)
    → e.heap.store p ≡ some (sequence_value t)
    → e.heap.store q ≡ some (sequence_value s)
    → t.frozen ≡ false
    → p ≢ q
    → (h : HeapStorage) × (native_list_concat e argc ≡ done (true, record e { heap = h }))
      × (h.store p ≡ some (sequence_value (joined t s)))
      × ((r : Addr) → r ≢ p → h.store r ≡ e.heap.store r)
unfolding native_list_concat concat_objects append_to load is_open is_sequence_object is_frozen
    items
native_list_concat-joined e argc p q t s first second target source thawed apart =
    let different : (p == q) ≡ false = ground arith in
    (
      replaced e.heap p (sequence_value (joined t s)),
      rw (second, first, target, source, push_items_lem t s.items, different, thawed) refl,
      ground arith,
      λ r ne. ground arith,
    )
