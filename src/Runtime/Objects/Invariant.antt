-- ===== src/Runtime/Objects/Invariant.antt =====
-- The size fields of the two classes of objects against the items they hold, and the ends of a
-- sequence: src/runtime/sequence_value.cpp and src/runtime/string_value.cpp.
use minuet_lang_mirror.Base.{
  ℕ, ◌+◌, ◌-◌, ◌<◌, ℤ, pos, negsuc, false, ◌≡◌, refl, sym, ap, ◌∙◌, List, [], ◌∷◌, ◌++◌, length,
  arith, length-append, length-drop_last, length-set, Bool-cases, inl, inr, ◌||◌, low_seven,
}
use minuet_lang_mirror.Runtime.Values.{
  FastValue, chr8, SequenceOpPolicy, front, back, SequenceValue, HeapValue, sequence_value,
  string_value, is_empty, taken, left, to_scalar,
}
use minuet_lang_mirror.Runtime.Objects.{items, get_size, push_value, pop_value, freeze, set_item}
use minuet_lang_mirror.Runtime.Objects.Sequence
use minuet_lang_mirror.Runtime.Objects.Text

-- The size that an object reports is the number of its items.
unfoldable pub IsCounted : HeapValue → Type 0
unfolding get_size items
IsCounted o = get_size o ≡ length (items o)

-- One call of a virtual method that changes an object, or a write through a pointer to an item.
pub data Edit : HeapValue → HeapValue → Type 0 where
  pushed : (o : HeapValue) (v : FastValue) → Edit o (push_value o v)
  popped : (o : HeapValue) (mode : SequenceOpPolicy) → Edit o ((pop_value o mode).1)
  froze : (o : HeapValue) → Edit o (freeze o)
  wrote : (o : HeapValue) (i : ℕ) (v : FastValue) → Edit o (set_item o i v)

pub data Edits : HeapValue → HeapValue → Type 0 where
  finished : (o : HeapValue) → Edits o o
  edited : {o p q : HeapValue} → Edit o p → Edits p q → Edits o q

length-left :
    (mode : SequenceOpPolicy) (xs : List FastValue) → length (left mode xs) ≡ length xs - 1
length-left back xs = length-drop_last xs
length-left front [] = omega arith
length-left front (x ∷ xs) = omega arith

push_value-IsCounted : (o : HeapValue) (v : FastValue) → IsCounted o → IsCounted (push_value o v)
unfolding IsCounted push_value Sequence.push_value Text.push_value items get_size
push_value-IsCounted (sequence_value s) v c = omega (arith, c, length-append (s.items) (v ∷ []))
push_value-IsCounted (string_value s) v c =
    omega (arith, c, length-append (s.items) (chr8 (Text.ascii v) ∷ []))

pop_value-IsCounted :
    (o : HeapValue) (mode : SequenceOpPolicy) → IsCounted o → IsCounted ((pop_value o mode).1)
unfolding IsCounted pop_value Sequence.pop_value Text.pop_value items get_size
pop_value-IsCounted (sequence_value s) mode c = elim (Bool-cases (is_empty s.items || s.frozen)) [
  | inl none_taken ↦ rw none_taken c
  | inr some_taken ↦ rw some_taken (omega (arith, c, length-left mode s.items))
]
pop_value-IsCounted (string_value s) mode c = elim (Bool-cases (is_empty s.items)) [
  | inl none_taken ↦ rw none_taken c
  | inr some_taken ↦ rw some_taken (omega (arith, c, length-left mode s.items))
]

Edit-IsCounted : {o p : HeapValue} → Edit o p → IsCounted o → IsCounted p
unfolding IsCounted freeze Sequence.freeze set_item items get_size
Edit-IsCounted (pushed o v) c = push_value-IsCounted o v c
Edit-IsCounted (popped o mode) c = pop_value-IsCounted o mode c
Edit-IsCounted (froze (sequence_value s)) c = c
Edit-IsCounted (froze (string_value s)) c = c
Edit-IsCounted (wrote (sequence_value s) i v) c = c ∙ sym (length-set s.items i v)
Edit-IsCounted (wrote (string_value s) i v) c = c ∙ sym (length-set s.items i v)

-- However a list or a string is pushed, popped, frozen and written, in any order, the size that
-- it reports stays the number of items it holds.
pub Edits-IsCounted : {o p : HeapValue} → Edits o p → IsCounted o → IsCounted p
Edits-IsCounted (finished o) c = c
Edits-IsCounted (edited e rest) c = Edits-IsCounted rest (Edit-IsCounted e c)

is_empty-append : (xs : List FastValue) (v : FastValue) → is_empty (xs ++ v ∷ []) ≡ false
is_empty-append [] v = refl
is_empty-append (x ∷ xs) v = refl

drop_last-append : (xs : List FastValue) (v : FastValue) → left back (xs ++ v ∷ []) ≡ xs
drop_last-append [] v = refl
drop_last-append (x ∷ []) v = refl
drop_last-append (x ∷ y ∷ xs) v = ap (◌∷◌ x) (drop_last-append (y ∷ xs) v)

taken-append : (xs : List FastValue) (v : FastValue) → taken back (xs ++ v ∷ []) ≡ v
taken-append [] v = refl
taken-append (x ∷ []) v = refl
taken-append (x ∷ y ∷ xs) v = taken-append (y ∷ xs) v

-- The last value pushed on a list that is not frozen is the one that a pop from the back gives,
-- and the list is what it was before.
pub pop_value-push_value :
    (s : SequenceValue) (v : FastValue)
    → s.frozen ≡ false
    → Sequence.pop_value (Sequence.push_value s v) back ≡ (v, s)
unfolding Sequence.pop_value Sequence.push_value
pop_value-push_value s v thawed =
    let size : s.length + 1 - 1 ≡ s.length = omega arith in
    rw (is_empty-append s.items v, thawed, drop_last-append s.items v, taken-append s.items v, size)
      cc

-- The character codes of ASCII.
pub data IsAscii : List ℤ → Type 0 where
  no_chars : IsAscii []
  more_chars : {c : ℕ} {cs : List ℤ} → c < 128 → IsAscii cs → IsAscii (pos c ∷ cs)

ascii_lem : (c : ℕ) → c < 128 → Text.ascii (chr8 (pos c)) ≡ pos c
unfolding Text.ascii to_scalar low_seven
ascii_lem c h = ap pos (omega arith)

-- A string made of ASCII text prints as that text.
pub to_string-of_chars : (cs : List ℤ) → IsAscii cs → Text.to_string (Text.of_chars cs) ≡ cs
unfolding Text.to_string Text.of_chars Text.chars_of
to_string-of_chars [] a = refl
to_string-of_chars (negsuc c ∷ cs) a = elim a [ ]
to_string-of_chars (pos c ∷ cs) (more_chars h a) =
    rw (ascii_lem c h) (ap (◌∷◌ (pos c)) (to_string-of_chars cs a))
