-- ===== src/Codegen/Decoding.antt =====
-- What the machine reads from the metadata that the emitter writes.
use minuet_lang_mirror.Base.{ℕ, ◌/◌, ◌%◌, ◌<◌, ◌≡◌, refl, ap, ◌∙◌, arith}
use minuet_lang_mirror.Runtime.Bytecode.{
  ArgMode, arg_mode_of, instruct_arity, mode_0, mode_1, mode_2,
}
use minuet_lang_mirror.Codegen.Emitter.Metadata.{
  PseudoArg, mode_number, encode_one, encode_two, encode_three,
}

mode_number-lt : (m : ArgMode) → mode_number m < 6
mode_number-lt ArgMode.immediate = omega arith
mode_number-lt ArgMode.constant = omega arith
mode_number-lt ArgMode.reg = omega arith
mode_number-lt ArgMode.stack = omega arith
mode_number-lt ArgMode.heap = omega arith
mode_number-lt ArgMode.last = omega arith

arg_mode_of-mode_number : (m : ArgMode) → arg_mode_of (mode_number m) ≡ m
unfolding arg_mode_of
arg_mode_of-mode_number ArgMode.immediate = refl
arg_mode_of-mode_number ArgMode.constant = refl
arg_mode_of-mode_number ArgMode.reg = refl
arg_mode_of-mode_number ArgMode.stack = refl
arg_mode_of-mode_number ArgMode.heap = refl
arg_mode_of-mode_number ArgMode.last = refl

named : (n : ℕ) (m : ArgMode) → n ≡ mode_number m → arg_mode_of n ≡ m
named n m e = ap arg_mode_of e ∙ arg_mode_of-mode_number m

pub mode_0-encode_one : (a0 : PseudoArg) → mode_0 (encode_one a0) ≡ a0.tag
unfolding mode_0 encode_one
mode_0-encode_one a0 = named (encode_one a0 / 4 % 16) a0.tag (omega (arith, mode_number-lt a0.tag))

pub mode_0-encode_two : (a0 a1 : PseudoArg) → mode_0 (encode_two a0 a1) ≡ a0.tag
unfolding mode_0 encode_two
mode_0-encode_two a0 a1 =
    named (encode_two a0 a1 / 4 % 16) a0.tag
      (omega (arith, mode_number-lt a0.tag, mode_number-lt a1.tag))

pub mode_1-encode_two : (a0 a1 : PseudoArg) → mode_1 (encode_two a0 a1) ≡ a1.tag
unfolding mode_1 encode_two
mode_1-encode_two a0 a1 =
    named (encode_two a0 a1 / 64 % 16) a1.tag
      (omega (arith, mode_number-lt a0.tag, mode_number-lt a1.tag))

module _ (a0 a1 a2 : PseudoArg) where
  pub mode_0-encode_three : mode_0 (encode_three a0 a1 a2) ≡ a0.tag
  unfolding mode_0 encode_three
  mode_0-encode_three =
      named (encode_three a0 a1 a2 / 4 % 16) a0.tag
        (omega (arith, mode_number-lt a0.tag, mode_number-lt a1.tag, mode_number-lt a2.tag))

  pub mode_1-encode_three : mode_1 (encode_three a0 a1 a2) ≡ a1.tag
  unfolding mode_1 encode_three
  mode_1-encode_three =
      named (encode_three a0 a1 a2 / 64 % 16) a1.tag
        (omega (arith, mode_number-lt a0.tag, mode_number-lt a1.tag, mode_number-lt a2.tag))

  pub mode_2-encode_three : mode_2 (encode_three a0 a1 a2) ≡ a2.tag
  unfolding mode_2 encode_three
  mode_2-encode_three =
      named (encode_three a0 a1 a2 / 1024 % 16) a2.tag
        (omega (arith, mode_number-lt a0.tag, mode_number-lt a1.tag, mode_number-lt a2.tag))

-- The machine reads back from the metadata of one, two and three arguments their number and the mode of each argument, whatever their values.
pub encode-decodes :
    (a0 a1 a2 : PseudoArg)
    → ((instruct_arity (encode_one a0) ≡ 1) × (mode_0 (encode_one a0) ≡ a0.tag))
      × ((instruct_arity (encode_two a0 a1) ≡ 2)
          × (mode_0 (encode_two a0 a1) ≡ a0.tag)
          × (mode_1 (encode_two a0 a1) ≡ a1.tag))
      × ((instruct_arity (encode_three a0 a1 a2) ≡ 3)
          × (mode_0 (encode_three a0 a1 a2) ≡ a0.tag)
          × (mode_1 (encode_three a0 a1 a2) ≡ a1.tag)
          × (mode_2 (encode_three a0 a1 a2) ≡ a2.tag))
unfolding instruct_arity encode_one encode_two encode_three
encode-decodes a0 a1 a2 =
    let b0 = mode_number-lt a0.tag in
    let b1 = mode_number-lt a1.tag in
    let b2 = mode_number-lt a2.tag in
    (
      (omega arith, mode_0-encode_one a0),
      (omega arith, mode_0-encode_two a0 a1, mode_1-encode_two a0 a1),
      (
        omega arith,
        mode_0-encode_three a0 a1 a2,
        mode_1-encode_three a0 a1 a2,
        mode_2-encode_three a0 a1 a2,
      ),
    )
