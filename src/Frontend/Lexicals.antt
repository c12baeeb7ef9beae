-- ===== src/Frontend/Lexicals.antt =====
-- src/frontend/lexicals.hpp: tokens. A source is a list of bytes, and a token's bounds are `uint32_t`.
use minuet_lang_mirror.Base.{
  ℕ, ◌+◌, ◌-◌, ◌%◌, ◌^◌, List, take, drop, length, ltb, Run, done, fault, out_of_range,
  if◌then◌else◌,
}

pub data TokenType : Type 0 where
  unknown spaces comment : TokenType
  keyword_fn keyword_import keyword_fun keyword_native keyword_def keyword_detup : TokenType
  keyword_if keyword_else keyword_match keyword_pat keyword_discard keyword_return : TokenType
  keyword_while keyword_break identifier : TokenType
  literal_false literal_true literal_int literal_double literal_char literal_string : TokenType
  oper_times oper_slash oper_modulo oper_plus oper_minus : TokenType
  oper_equality oper_inequality oper_lesser oper_greater oper_at_least oper_at_most : TokenType
  oper_assign open_bracket close_bracket open_brace close_brace open_paren close_paren : TokenType
  comma colon dot arrow eof : TokenType

abbrev pub Text : Type 0
Text = List ℕ

pub record LexicalEntry : Type 0 where
  pub text : Text
  pub tag : TokenType

pub record Token : Type 0 where
  pub type : TokenType
  pub start : ℕ
  pub end : ℕ
  pub line : ℕ
  pub col : ℕ

-- `++` and `--` of `uint32_t`, and `++` of `uint16_t`.
unfoldable pub inc32 : ℕ → ℕ
inc32 n = (n + 1) % 2 ^ 32

unfoldable pub dec32 : ℕ → ℕ
dec32 n = (n + 4294967295) % 2 ^ 32

unfoldable pub inc16 : ℕ → ℕ
inc16 n = (n + 1) % 2 ^ 16

-- `end - start + 1`, of `uint32_t`.
unfoldable pub span_length : ℕ → ℕ → ℕ
span_length start end = (end + 4294967297 - start) % 2 ^ 32

-- `token_length`
unfoldable pub token_length : Token → ℕ
unfolding span_length
token_length t = span_length t.start t.end

-- The bytes of `substr`, which clips the count to the text.
abbrev pub substr : Text → ℕ → ℕ → Text
substr sv start count = take count (drop start sv)

-- `string_view::substr`, which throws where it begins behind the text.
unfoldable pub checked_substr : Text → ℕ → ℕ → Run Text
checked_substr sv start count =
    if ltb (length sv) start then fault out_of_range else done (substr sv start count)

-- `token_to_sv`
unfoldable pub token_to_sv : Token → Text → Run Text
unfolding token_length checked_substr
token_to_sv t src_view = checked_substr src_view t.start (token_length t)
