-- ===== src/Tests/Values.antt =====
-- The operators of src/runtime/fast_value.cpp on a list of an integer and a Boolean.
use minuet_lang_mirror.Base.{
  ◌≡◌, refl, arith, ◌<◌, [], ◌∷◌, ℤ, pos, negsuc, not, done, ltb, leb, ◌==◌, ◌+◌, ◌-◌, ◌*◌, ◌/◌,
  fits_int32, quot_ℤ, pos_part, neg_part, ◌*ℤ◌, ◌+ℤ◌,
}
use minuet_lang_mirror.Runtime.Values.{item, FastValue, int32, val_ref, DoubleOps}
use minuet_lang_mirror.Runtime.Objects.{items}
use minuet_lang_mirror.Runtime.HeapStorage.{load, deref}
use minuet_lang_mirror.Runtime.FastValue.{
  times, divide, modulo, plus, minus, times_values, divide_values, modulo_values, plus_values,
  minus_values,
}
use minuet_lang_mirror.Runtime.FastValue.Assign.{modulo_assign, divide_assign}
use minuet_lang_mirror.Runtime.FastValue.References.{Refers, arrived, through, arithmetic-Refers}
use minuet_lang_mirror.Runtime.FastValue.Division.{divide-modulo, modulo_assign-eq-divide_assign}
use minuet_lang_mirror.Tests.Heap.{one_list}

-- Doubles that are whole numbers.
abbrev pub whole_doubles : DoubleOps
whole_doubles = record {
  times = λ a b. a * b;
  divide = λ a b. a / b;
  plus = λ a b. a + b;
  minus = λ a b. a - b;
  equal = λ a b. a == b;
  less = λ a b. ltb a b;
  at_most = λ a b. leb a b;
  nonzero = λ a. not (a == 0);
  show = λ a. pos a ∷ [];
}

abbrev three : FastValue
three = int32 (pos 3)

first_item : Refers one_list (int32 (pos 6)) 1 (val_ref (item 0 0))
unfolding deref load items
first_item = through {v = int32 (pos 6)} refl (arrived refl refl refl)

arithmetic-Refers_example :
    (times whole_doubles 2 one_list (val_ref (item 0 0)) three
      ≡ times_values whole_doubles (int32 (pos 6)) three)
    × (divide whole_doubles 2 one_list (val_ref (item 0 0)) three
        ≡ divide_values whole_doubles (int32 (pos 6)) three)
    × (modulo whole_doubles 2 one_list (val_ref (item 0 0)) three
        ≡ modulo_values whole_doubles (int32 (pos 6)) three)
    × (plus whole_doubles 2 one_list (val_ref (item 0 0)) three
        ≡ plus_values whole_doubles (int32 (pos 6)) three)
    × (minus whole_doubles 2 one_list (val_ref (item 0 0)) three
        ≡ minus_values whole_doubles (int32 (pos 6)) three)
arithmetic-Refers_example = arithmetic-Refers whole_doubles 2 three first_item (omega arith)

divide-modulo_example :
    (q r : ℤ) × (divide whole_doubles 1 one_list (int32 (negsuc 6)) (int32 (pos 2))
      ≡ done (int32 q))
    × (modulo whole_doubles 1 one_list (int32 (negsuc 6)) (int32 (pos 2)) ≡ done (int32 r))
    × (q *ℤ pos 2 +ℤ r ≡ negsuc 6)
    × (pos_part r + neg_part r < 2)
unfolding fits_int32 quot_ℤ
divide-modulo_example = divide-modulo whole_doubles 0 one_list (negsuc 6) (pos 2) refl refl

modulo_assign-eq-divide_assign_example :
    modulo_assign whole_doubles 2 one_list (int32 (pos 7)) three
    ≡ divide_assign whole_doubles 2 one_list (int32 (pos 7)) three
modulo_assign-eq-divide_assign_example =
    modulo_assign-eq-divide_assign whole_doubles 2 one_list (pos 7) three
