-- ===== src/Ir/Convert/Literals.antt =====
-- src/ir/convert_ast.cpp: literals, and names in the place of one.
use minuet_lang_mirror.Base.{
  ℕ, ℤ, pos, negsuc, ◌+◌, ◌-◌, ◌*◌, ltb, leb, ◌==◌, Bool, false, ◌&&◌, Option, none, some, [], ◌∷◌,
  map, Run, done, fault, overflow, ◌>>=◌, fits_int32, if◌then◌else◌, ◌-ℤ◌,
}
use minuet_lang_mirror.Frontend.Lexicals.{Text, Token, TokenType, token_to_sv}
use minuet_lang_mirror.Ir.Steps.{Op, AbsAddress, oper_binary}
use minuet_lang_mirror.Runtime.Values.{FastValue, chr8, int32, flt64, boolean, string_value}
use minuet_lang_mirror.Runtime.Objects.Text.{of_chars}
use minuet_lang_mirror.Ir.Convert.State.{
  Conversion, text_eq, report_error, gen_temp_aa, resolve_constant_aa, resolve_heap_obj_aa,
  lookup_name_aa, add_step,
}

-- A byte as a signed `char`.
abbrev pub char_of : ℕ → ℤ
char_of b = if ltb b 128 then pos b else negsuc (255 - b)

-- `lexeme[i]`, which is the closing zero behind the last byte.
abbrev first_byte : Text → ℕ
first_byte [] = 0
first_byte (b ∷ bs) = b

abbrev second_byte : Text → ℕ
second_byte [] = 0
second_byte (b ∷ bs) = first_byte bs

-- `\t` is 9, `\n` is 10, and any other escape is 0.
unfoldable pub convert_char_literal : Text → FastValue
convert_char_literal lexeme =
    if first_byte lexeme == 92
    then chr8 (
        if second_byte lexeme == 116
        then pos 9
        else if second_byte lexeme == 110
        then pos 10
        else pos 0)
    else chr8 (char_of (first_byte lexeme))

-- `std::stoi` on a lexeme, which has no space in front: a sign and the digits up to the first byte
-- that is none. The exceptions of no digits and of a value that is no `int` end the conversion.
abbrev pub digits : Text → ℕ → ℕ
digits [] n = n
digits (b ∷ bs) n = if leb 48 b && leb b 57 then digits bs (n * 10 + (b - 48)) else n

abbrev pub starts_digit : Text → Bool
starts_digit [] = false
starts_digit (b ∷ bs) = leb 48 b && leb b 57

abbrev pub in_range : Bool → ℤ → Run ℤ
in_range some_digit n = if some_digit && fits_int32 n then done n else fault overflow

unfoldable pub stoi : Text → Run ℤ
unfolding fits_int32 ◌-ℤ◌
stoi [] = fault overflow
stoi (b ∷ bs) =
    if b == 45
    then in_range (starts_digit bs) (pos 0 -ℤ pos (digits bs 0))
    else if b == 43
    then in_range (starts_digit bs) (pos (digits bs 0))
    else in_range (starts_digit (b ∷ bs)) (pos (digits (b ∷ bs) 0))

-- "true"
abbrev true_text : Text
true_text = 116 ∷ 114 ∷ 117 ∷ 101 ∷ []

abbrev pub resolved : Text → FastValue → Conversion → Run (Option AbsAddress × Conversion)
resolved lexeme value c = let (aa, c') = resolve_constant_aa lexeme value c in done (some aa, c')

unfoldable pub emit_string : Text → Conversion → Run (Option AbsAddress × Conversion)
unfolding gen_temp_aa resolve_heap_obj_aa add_step of_chars
emit_string text c = do
  let (dest_aa, c1) = gen_temp_aa c
  let (str_aa, c2) = resolve_heap_obj_aa (string_value (of_chars (map char_of text))) c1
  c3 ← add_step (oper_binary (record { arg_0 = dest_aa; arg_1 = str_aa; op = Op.make_str })) c2
  done (some dest_aa, c3)

-- By the type of the token; `stod` is `std::stod`, whose exceptions end the conversion.
unfoldable pub emit_lexeme :
    (Text → Run ℕ) → TokenType → Text → Conversion → Run (Option AbsAddress × Conversion)
unfolding resolve_constant_aa convert_char_literal stoi emit_string lookup_name_aa report_error
emit_lexeme stod TokenType.literal_false lexeme c =
    resolved lexeme (boolean (text_eq lexeme true_text)) c
emit_lexeme stod TokenType.literal_true lexeme c =
    resolved lexeme (boolean (text_eq lexeme true_text)) c
emit_lexeme stod TokenType.literal_char lexeme c = resolved lexeme (convert_char_literal lexeme) c
emit_lexeme stod TokenType.literal_int lexeme c = stoi lexeme >>= λ n. resolved lexeme (int32 n) c
emit_lexeme stod TokenType.literal_double lexeme c =
    stod lexeme >>= λ d. resolved lexeme (flt64 d) c
emit_lexeme stod TokenType.literal_string lexeme c = emit_string lexeme c
emit_lexeme stod TokenType.identifier lexeme c = done (lookup_name_aa lexeme c, c)
emit_lexeme stod tag lexeme c = done (none, report_error c)

unfoldable pub emit_literal :
    (Text → Run ℕ) → Text → Token → Conversion → Run (Option AbsAddress × Conversion)
unfolding emit_lexeme token_to_sv
emit_literal stod source token c =
    token_to_sv token source >>= λ lexeme. emit_lexeme stod token.type lexeme c
