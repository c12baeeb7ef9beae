-- ===== src/Runtime/Objects/Text.antt =====
-- src/runtime/string_value.cpp: `StringValue`.
use minuet_lang_mirror.Base.{
  ℕ, ◌+◌, ◌-◌, ℤ, pos, Bool, true, false, Option, none, some, List, [], ◌∷◌, ◌++◌, if◌then◌else◌,
  ltb, length, set, low_seven,
}
use minuet_lang_mirror.Runtime.Values.{
  FastValue, dud, chr8, SequenceOpPolicy, StringValue, is_empty, taken, left, to_scalar,
}

-- The constructor from a `std::string`.
unfoldable pub of_chars : List ℤ → StringValue
of_chars [] = record { items = []; length = 0 }
of_chars (c ∷ cs) = record {
  items = chr8 c ∷ (of_chars cs).items;
  length = (of_chars cs).length + 1;
}

abbrev scalar_or_zero : Option ℤ → ℤ
scalar_or_zero none = pos 0
scalar_or_zero (some z) = z

-- `to_scalar().value_or(0) & 0x7f`
unfoldable pub ascii : FastValue → ℤ
unfolding to_scalar low_seven
ascii v = pos (low_seven (scalar_or_zero (to_scalar v)))

unfoldable pub push_value : StringValue → FastValue → StringValue
unfolding ascii
push_value s arg = record { items = s.items ++ chr8 (ascii arg) ∷ []; length = s.length + 1 }

unfoldable pub pop_value : StringValue → SequenceOpPolicy → FastValue × StringValue
pop_value s mode =
    if is_empty s.items
    then (dud, s)
    else (taken mode s.items, record { items = left mode s.items; length = s.length - 1 })

unfoldable pub set_value : StringValue → FastValue → ℕ → StringValue × Bool
set_value s arg index =
    if ltb index (length s.items)
    then (record s { items = set s.items index arg }, true)
    else (s, false)

unfoldable pub chars_of : List FastValue → List ℤ
unfolding ascii
chars_of [] = []
chars_of (v ∷ vs) = ascii v ∷ chars_of vs

unfoldable pub to_string : StringValue → List ℤ
unfolding chars_of
to_string s = chars_of s.items

unfoldable pub clone : StringValue → StringValue
unfolding of_chars to_string
clone s = of_chars (to_string s)
