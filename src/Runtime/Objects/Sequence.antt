-- ===== src/Runtime/Objects/Sequence.antt =====
-- src/runtime/sequence_value.cpp: `SequenceValue`.
use minuet_lang_mirror.Base.{
  ℕ, ◌+◌, ◌-◌, true, false, ◌||◌, List, [], ◌∷◌, ◌++◌, if◌then◌else◌, ltb, length, set, Run, done,
  fault, bad_index,
}
use minuet_lang_mirror.Runtime.Values.{
  FastValue, dud, SequenceOpPolicy, SequenceValue, is_empty, taken, left,
}

abbrev pub empty : SequenceValue
empty = record { items = []; length = 0; frozen = false }

unfoldable pub push_value : SequenceValue → FastValue → SequenceValue
push_value s arg = record s { items = s.items ++ arg ∷ []; length = s.length + 1 }

unfoldable pub pop_value : SequenceValue → SequenceOpPolicy → FastValue × SequenceValue
pop_value s mode =
    if is_empty s.items || s.frozen
    then (dud, s)
    else (taken mode s.items, record s { items = left mode s.items; length = s.length - 1 })

-- `m_items[pos]` with no test of `pos`.
unfoldable pub set_value : SequenceValue → FastValue → ℕ → Run SequenceValue
set_value s arg index =
    if ltb index (length s.items)
    then done (record s { items = set s.items index arg })
    else fault bad_index

unfoldable pub freeze : SequenceValue → SequenceValue
freeze s = record s { frozen = true }

-- The copies are pushed one by one on an empty sequence.
unfoldable pub push_all : SequenceValue → List FastValue → SequenceValue
unfolding push_value
push_all s [] = s
push_all s (x ∷ xs) = push_all (push_value s x) xs

unfoldable pub clone : SequenceValue → SequenceValue
unfolding push_all
clone s = push_all empty s.items
