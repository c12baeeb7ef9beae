-- ===== src/Tests/Objects.antt =====
-- Lists and strings of src/runtime/sequence_value.cpp and string_value.cpp.
use minuet_lang_mirror.Base.{◌≡◌, refl, [], ◌∷◌, pos, true, false}
use minuet_lang_mirror.Runtime.Values.{
  int32, boolean, dud, SequenceValue, HeapValue, sequence_value, front, back,
}
use minuet_lang_mirror.Runtime.Objects.{push_value, pop_value, freeze, get_size, items}
use minuet_lang_mirror.Runtime.Objects.Sequence
use minuet_lang_mirror.Runtime.Objects.Invariant.{
  IsCounted, finished, edited, pushed, popped, froze, Edits-IsCounted, pop_value-push_value,
}

abbrev pair : SequenceValue
pair = record { items = int32 (pos 4) ∷ boolean true ∷ []; length = 2; frozen = false }

pop_value-push_value_example :
    Sequence.pop_value (Sequence.push_value pair (int32 (pos 9))) back ≡ (int32 (pos 9), pair)
pop_value-push_value_example = pop_value-push_value pair (int32 (pos 9)) refl

abbrev edits : HeapValue
edits = freeze (pop_value (push_value (sequence_value pair) dud) front).1

Edits-IsCounted_example : IsCounted edits
unfolding IsCounted get_size items
Edits-IsCounted_example =
    Edits-IsCounted
      (edited (pushed (sequence_value pair) dud)
        (edited (popped _ front) (edited (froze _) (finished edits))))
      refl
