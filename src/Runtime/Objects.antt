-- ===== src/Runtime/Objects.antt =====
-- The virtual calls of `HeapValueBase` (src/runtime/fast_value.hpp) on the two classes of objects.
pub mod Sequence
pub mod Text
pub mod Invariant
use Sequence
use Text
use minuet_lang_mirror.Base.{
  ℕ, zero, suc, ◌*◌, Bool, true, false, not, ◌&&◌, List, [], ◌∷◌, if◌then◌else◌, ltb, length, set,
  ◌==◌, Run, done, fault, ◌>>=◌, bad_index,
}
use minuet_lang_mirror.Runtime.Values.{
  FastValue, SequenceOpPolicy, SequenceValue, StringValue, HeapValue, sequence_value, string_value,
}

unfoldable pub items : HeapValue → List FastValue
items (sequence_value s) = s.items
items (string_value s) = s.items

unfoldable pub get_size : HeapValue → ℕ
get_size (sequence_value s) = s.length
get_size (string_value s) = s.length

unfoldable pub get_memory_score : HeapValue → ℕ
get_memory_score (sequence_value s) = s.length * 16
get_memory_score (string_value s) = 16 * length s.items

unfoldable pub is_frozen : HeapValue → Bool
is_frozen (sequence_value s) = s.frozen
is_frozen (string_value s) = false

-- `get_tag() == ObjectTag::sequence`
unfoldable pub is_sequence_object : HeapValue → Bool
is_sequence_object (sequence_value s) = true
is_sequence_object (string_value s) = false

unfoldable pub same_tag : HeapValue → HeapValue → Bool
same_tag (sequence_value s) (sequence_value t) = true
same_tag (string_value s) (string_value t) = true
same_tag _ _ = false

unfoldable pub push_value : HeapValue → FastValue → HeapValue
unfolding Sequence.push_value Text.push_value
push_value (sequence_value s) arg = sequence_value (Sequence.push_value s arg)
push_value (string_value s) arg = string_value (Text.push_value s arg)

abbrev as_sequence : FastValue × SequenceValue → FastValue × HeapValue
as_sequence (v, s) = (v, sequence_value s)

abbrev as_string : FastValue × StringValue → FastValue × HeapValue
as_string (v, s) = (v, string_value s)

unfoldable pub pop_value : HeapValue → SequenceOpPolicy → FastValue × HeapValue
unfolding Sequence.pop_value Text.pop_value
pop_value (sequence_value s) mode = as_sequence (Sequence.pop_value s mode)
pop_value (string_value s) mode = as_string (Text.pop_value s mode)

-- `get_value(pos)` finds an item.
unfoldable pub has_value : HeapValue → ℕ → Bool
unfolding items
has_value o pos = ltb pos (length (items o))

unfoldable pub freeze : HeapValue → HeapValue
unfolding Sequence.freeze
freeze (sequence_value s) = sequence_value (Sequence.freeze s)
freeze (string_value s) = string_value s

-- A write through a pointer to an item.
unfoldable pub set_item : HeapValue → ℕ → FastValue → HeapValue
set_item (sequence_value s) i v = sequence_value (record s { items = set s.items i v })
set_item (string_value s) i v = string_value (record s { items = set s.items i v })

-- The loop of `operator==`, over the items of both sides.
unfoldable pub items_eq :
    (FastValue → FastValue → Run Bool) → ℕ → List FastValue → List FastValue → Run Bool
items_eq eq zero xs ys = done true
items_eq eq (suc n) (x ∷ xs) (y ∷ ys) = do
  same ← eq x y
  let rest = items_eq eq n xs ys
  if same then rest else done false
items_eq eq (suc n) _ _ = fault bad_index

-- `operator==` of both classes.
unfoldable pub object_eq : (FastValue → FastValue → Run Bool) → HeapValue → HeapValue → Run Bool
unfolding same_tag get_size items items_eq
object_eq eq a b =
    if not (same_tag a b && get_size a == get_size b)
    then done false
    else items_eq eq (get_size a) (items a) (items b)
