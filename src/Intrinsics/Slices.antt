-- ===== src/Intrinsics/Slices.antt =====
-- What `native_substr` of src/mintrinsics/mnl_strings.cpp makes of its string.
use minuet_lang_mirror.Base.{
  ℕ, zero, suc, ◌+◌, ◌<◌, ◌^◌, ℤ, pos, negsuc, ◌+ℤ◌, true, false, ◌≡◌, refl, ap, ◌∙◌, some, List,
  [], ◌∷◌, length, arith, done, take, drop, fits_int32, leb_ℤ, eq_ℤ, low_seven, leb, Written,
  write_at-Written, write_at, ltb_ℤ, if◌then◌else◌,
}
use minuet_lang_mirror.Runtime.Values.{
  Addr, FastValue, int32, string, StringValue, string_value, to_scalar,
}
use minuet_lang_mirror.Runtime.Objects.Text
use minuet_lang_mirror.Runtime.Objects.Invariant.{IsAscii, no_chars, more_chars, to_string-of_chars}
use minuet_lang_mirror.Runtime.HeapStorage.{HeapStorage, load, try_create_value}
use minuet_lang_mirror.Runtime.HeapStorage.Invariant.{IsValid, live}
use minuet_lang_mirror.Runtime.HeapStorage.Creation.{Created, try_create_value-Created}
use minuet_lang_mirror.Runtime.Vm.Engine.{Engine}
use minuet_lang_mirror.Runtime.Vm.Control.{
  native_slot, handle_native_fn_access, handle_native_fn_return,
}
use minuet_lang_mirror.Intrinsics.Lists.{answer}
use minuet_lang_mirror.Intrinsics.Strings.{substr, slice_of, slice_at, native_substr}

low_seven-lt : (z : ℤ) → low_seven z < 128
unfolding low_seven
low_seven-lt (pos n) = omega arith
low_seven-lt (negsuc n) = omega arith

IsAscii-chars_of : (vs : List FastValue) → IsAscii (Text.chars_of vs)
unfolding Text.chars_of Text.ascii
IsAscii-chars_of [] = no_chars
IsAscii-chars_of (v ∷ vs) = more_chars (low_seven-lt _) (IsAscii-chars_of vs)

IsAscii-take : (n : ℕ) (cs : List ℤ) → IsAscii cs → IsAscii (take n cs)
IsAscii-take zero cs a = no_chars
IsAscii-take (suc n) [] a = no_chars
IsAscii-take (suc n) _ (more_chars h a) = more_chars h (IsAscii-take n _ a)

IsAscii-drop : (n : ℕ) (cs : List ℤ) → IsAscii cs → IsAscii (drop n cs)
IsAscii-drop zero cs a = a
IsAscii-drop (suc n) [] a = no_chars
IsAscii-drop (suc n) _ (more_chars h a) = IsAscii-drop n _ a

length-chars_of : (vs : List FastValue) → length (Text.chars_of vs) ≡ length vs
unfolding Text.chars_of
length-chars_of [] = refl
length-chars_of (v ∷ vs) = ap suc (length-chars_of vs)

-- What a slice promises: a new string that prints as `text` in a valid heap, no other change of an
-- object, and the string in the register of the result.
pub record Sliced (e : Engine) (slot : ℤ) (text : List ℤ) (e' : Engine) : Type 0 where
  pub address : Addr
  pub slice : StringValue
  pub prints : Text.to_string slice ≡ text
  pub created : Created e.heap (string_value slice) address e'.heap
  pub result : Written e.memory slot (string address) e'.memory

sum_lem : (a b : ℕ) → pos a +ℤ pos b ≡ pos (a + b)
unfolding ◌+ℤ◌
sum_lem a b = ground arith

fits_lem : (n : ℕ) → n < 2 ^ 31 → fits_int32 (pos n) ≡ true
unfolding fits_int32
fits_lem n h = ground arith

beyond_lem : (size end : ℕ) → end < size → leb_ℤ (pos size) (pos end) ≡ false
beyond_lem size end h = ground arith

positive_lem : (n : ℕ) → eq_ℤ (pos (suc n)) (pos 0) ≡ false
positive_lem n = ground arith

-- The engine behind a procedure that put its result in a register.
abbrev answered : Engine → ℤ → HeapStorage → List FastValue → Engine
answered e argc h ys = record e {
  heap = h;
  memory = ys;
  rft = if ltb_ℤ (pos 0) argc then e.rft else e.rft +ℤ pos 1;
}

module _ (e : Engine) (argc : ℤ) (p : Addr) (s : StringValue) (begin len : ℕ)
    (first : handle_native_fn_access e argc (pos 0) ≡ done (string p))
    (second : handle_native_fn_access e argc (pos 1) ≡ done (int32 (pos begin)))
    (third : handle_native_fn_access e argc (pos 2) ≡ done (int32 (pos (suc len))))
    (there : e.heap.store p ≡ some (string_value s)) (sized : s.length ≡ length s.items)
    (inside : begin + suc len < s.length) (small : s.length < 2 ^ 31) (valid : IsValid e.heap)
    (room : live e.heap.objects < 1024) where
  substr_lem :
      substr (Text.to_string s) (pos begin) (pos (suc len))
      ≡ done (take (suc len) (drop begin (Text.to_string s)))
  unfolding substr Text.to_string
  substr_lem =
      let fits : leb begin (length (Text.chars_of s.items)) ≡ true =
        ground (arith, length-chars_of s.items, sized, inside) in
      rw fits refl

  slice_of_lem :
      (q : Addr) (h : HeapStorage) (ys : List FastValue)
      → try_create_value e.heap
          (string_value (Text.of_chars (take (suc len) (drop begin (Text.to_string s)))))
        ≡ done (q, h)
      → write_at e.memory (native_slot e argc (pos 0)) (string q) ≡ done ys
      → slice_of e argc (pos begin) (pos (suc len)) (string_value s)
        ≡ done (true, answered e argc h ys)
  unfolding slice_of answer handle_native_fn_return
  slice_of_lem q h ys made stored =
      let end = begin + suc len in
      let fits : fits_int32 (pos begin +ℤ pos (suc len)) ≡ true =
        ap fits_int32 (sum_lem begin (suc len)) ∙ fits_lem end (omega arith) in
      let before : leb_ℤ (pos s.length) (pos begin +ℤ pos (suc len)) ≡ false =
        ap (leb_ℤ (pos s.length)) (sum_lem begin (suc len)) ∙ beyond_lem s.length end inside in
      rw (fits, before, substr_lem, made, stored) refl

  -- Where the arguments are a string, a place and a positive count whose sum is smaller than the
  -- string's size, and the valid heap has a free slot, `native_substr` succeeds: a new string prints
  -- as the slice of what the string prints, the register of the result holds it, and every other
  -- object and register is what it was.
  pub native_substr-Sliced :
      (e' : Engine) × (native_substr e argc ≡ done (true, e'))
      × Sliced e (native_slot e argc (pos 0)) (take (suc len) (drop begin (Text.to_string s))) e'
  unfolding native_substr slice_at load to_scalar
  native_substr-Sliced =
      let text = take (suc len) (drop begin (Text.to_string s)) in
      let (q, h, made, c) =
        try_create_value-Created e.heap (string_value (Text.of_chars text)) valid room in
      let (ys, stored, w) =
        write_at-Written e.memory (native_slot e argc (pos 0)) (string q)
          (unfold handle_native_fn_access in first) in
      (
        answered e argc h ys,
        rw (first, second, third, there, positive_lem len) (slice_of_lem q h ys made stored),
        record {
          address = q;
          slice = Text.of_chars text;
          prints = to_string-of_chars text (
              unfold Text.to_string in
              IsAscii-take (suc len) _ (IsAscii-drop begin _ (IsAscii-chars_of s.items)));
          created = c;
          result = w;
        },
      )
