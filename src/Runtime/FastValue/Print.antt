-- ===== src/Runtime/FastValue/Print.antt =====
-- `to_string` of src/runtime/fast_value.cpp, sequence_value.cpp and string_value.cpp.
use Prim.Native.Char.{code}
use Prim.Native.String.{String}
use minuet_lang_mirror.Base.{
  ℕ, zero, suc, ◌+◌, ◌/◌, ◌%◌, ℤ, pos, negsuc, low_seven, Bool, List, [], ◌∷◌, ◌++◌, ltb,
  if◌then◌else◌, Run, done, fault, ◌>>=◌, no_fuel,
}
use minuet_lang_mirror.Runtime.Values.{
  FastValue, dud, boolean, chr8, int32, flt64, val_ref, string, sequence, HeapValue, sequence_value,
  string_value, DoubleOps,
}
use minuet_lang_mirror.Runtime.Objects.Text
use minuet_lang_mirror.Runtime.HeapStorage.{HeapStorage, deref, load}

-- The characters of an ASCII literal.
abbrev pub chars : String → List ℤ
chars String.[] = []
chars (String.◌∷◌ c s) = pos (code c) ∷ chars s

-- The decimal digits of `n` in front of `rest`; a number has no more digits than its value plus one.
unfoldable pub digits_onto : ℕ → ℕ → List ℤ → List ℤ
digits_onto zero n rest = rest
digits_onto (suc k) n rest =
    let digit = pos (b'0' + n % 10) in
    let more = digits_onto k (n / 10) (digit ∷ rest) in if ltb n 10 then digit ∷ rest else more

unfoldable pub decimal : ℤ → List ℤ
unfolding digits_onto
decimal (pos n) = digits_onto (n + 1) n []
decimal (negsuc n) = pos b'-' ∷ digits_onto (n + 2) (n + 1) []

-- Each item is followed by a space.
unfoldable pub print_items : (FastValue → Run (List ℤ)) → List FastValue → Run (List ℤ)
print_items print [] = done []
print_items print (v ∷ vs) = do
  text ← print v
  rest ← print_items print vs
  done (text ++ (pos b' ' ∷ rest))

abbrev opening : Bool → ℤ
opening frozen = pos (if frozen then b'[' else b'{')

abbrev closing : Bool → ℤ
closing frozen = pos (if frozen then b']' else b'}')

unfoldable pub object_to_string : (FastValue → Run (List ℤ)) → HeapValue → Run (List ℤ)
unfolding print_items Text.to_string
object_to_string print (string_value s) = done (Text.to_string s)
object_to_string print (sequence_value s) = do
  body ← print_items print s.items
  done (opening s.frozen ∷ (body ++ closing s.frozen ∷ []))

-- `FastValue::to_string`
unfoldable pub to_string : DoubleOps → ℕ → HeapStorage → FastValue → Run (List ℤ)
unfolding decimal object_to_string deref load low_seven
to_string fp zero h v = fault no_fuel
to_string fp (suc n) h dud = done (chars "(dud)")
to_string fp (suc n) h (boolean b) = done (if b then chars "true" else chars "false")
to_string fp (suc n) h (chr8 c) = done (pos b'\'' ∷ pos (low_seven c) ∷ pos b'\'' ∷ [])
to_string fp (suc n) h (int32 i) = done (decimal i)
to_string fp (suc n) h (flt64 d) = done (fp.show d)
to_string fp (suc n) h (val_ref r) = do
  target ← deref h r
  text ← to_string fp n h target
  done (chars "ref(FastValue(" ++ (text ++ chars "))"))
to_string fp (suc n) h (string p) = do o ← load h p; object_to_string (to_string fp n h) o
to_string fp (suc n) h (sequence p) = do o ← load h p; object_to_string (to_string fp n h) o
