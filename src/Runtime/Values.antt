-- ===== src/Runtime/Values.antt =====
-- The data of src/runtime/fast_value.hpp, sequence_value.hpp and string_value.hpp.
-- An object pointer is an address. A `FastValue*` always points into the vector of a heap object, so
-- it is the object's address and a position. A `double` is its bit pattern.
use minuet_lang_mirror.Base.{
  ℕ, ℤ, pos, Bool, true, false, List, [], ◌∷◌, Option, none, some, if◌then◌else◌, drop_last,
  low_seven,
}

abbrev pub Addr : Type 0
Addr = ℕ

-- `wild` is a pointer read from the bytes of a value that is no pointer.
pub data Ref : Type 0 where
  item : Addr → ℕ → Ref
  wild : Ref

-- `FastValue`, a constructor for each `FVTag`.
pub data FastValue : Type 0 where
  dud : FastValue
  boolean : Bool → FastValue
  chr8 : ℤ → FastValue
  int32 : ℤ → FastValue
  flt64 : ℕ → FastValue
  val_ref : Ref → FastValue
  string : Addr → FastValue
  sequence : Addr → FastValue

pub data SequenceOpPolicy : Type 0 where
  front back : SequenceOpPolicy

-- `SequenceValue`
pub record SequenceValue : Type 0 where
  pub items : List FastValue
  pub length : ℕ
  pub frozen : Bool

-- `StringValue`
pub record StringValue : Type 0 where
  pub items : List FastValue
  pub length : ℕ

-- `HeapValueBase`, by the class of the object.
pub data HeapValue : Type 0 where
  sequence_value : SequenceValue → HeapValue
  string_value : StringValue → HeapValue

-- What the language gives for `double`: the operations of `FastValue` on bit patterns.
pub record DoubleOps : Type 0 where
  pub times : ℕ → ℕ → ℕ
  pub divide : ℕ → ℕ → ℕ
  pub plus : ℕ → ℕ → ℕ
  pub minus : ℕ → ℕ → ℕ
  pub equal : ℕ → ℕ → Bool
  pub less : ℕ → ℕ → Bool
  pub at_most : ℕ → ℕ → Bool
  pub nonzero : ℕ → Bool
  pub show : ℕ → List ℤ

-- `to_object_ptr`
abbrev pub to_object_ptr : FastValue → Option Addr
to_object_ptr (sequence p) = some p
to_object_ptr (string p) = some p
to_object_ptr _ = none

-- `is_none`
abbrev pub is_none : FastValue → Bool
is_none dud = true
is_none _ = false

-- `tag() == FVTag::val_ref`
abbrev pub is_val_ref : FastValue → Bool
is_val_ref (val_ref r) = true
is_val_ref _ = false

-- `tag() == FVTag::sequence`
abbrev pub is_sequence : FastValue → Bool
is_sequence (sequence p) = true
is_sequence _ = false

-- `to_scalar`
unfoldable pub to_scalar : FastValue → Option ℤ
to_scalar (boolean b) = some (pos (if b then 1 else 0))
to_scalar (chr8 c) = some (pos (low_seven c))
to_scalar (int32 i) = some i
to_scalar _ = none

abbrev pub first_or_dud : List FastValue → FastValue
first_or_dud [] = dud
first_or_dud (x ∷ xs) = x

abbrev pub last_or_dud : List FastValue → FastValue
last_or_dud [] = dud
last_or_dud (x ∷ []) = x
last_or_dud (x ∷ y ∷ xs) = last_or_dud (y ∷ xs)

abbrev pub rest_of : List FastValue → List FastValue
rest_of [] = []
rest_of (x ∷ xs) = xs

-- The item that a pop takes, and the items that it leaves.
abbrev pub taken : SequenceOpPolicy → List FastValue → FastValue
taken back xs = last_or_dud xs
taken front xs = first_or_dud xs

abbrev pub left : SequenceOpPolicy → List FastValue → List FastValue
left back xs = drop_last xs
left front xs = rest_of xs

abbrev pub is_empty : List FastValue → Bool
is_empty [] = true
is_empty (x ∷ xs) = false
