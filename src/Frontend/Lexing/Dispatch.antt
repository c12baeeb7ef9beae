-- ===== src/Frontend/Lexing/Dispatch.antt =====
-- `Lexer::operator()` of src/frontend/lexing.cpp.
pub mod Progress
pub mod Totality
use minuet_lang_mirror.Base.{
  ℕ, zero, suc, ◌+◌, ◌-◌, Bool, true, false, not, ◌&&◌, ◌||◌, Option, none, some, List, [], ◌∷◌,
  length, get_elem?, leb, ltb, ◌==◌, if◌then◌else◌, Run, done, fault, ◌>>=◌, bad_index, no_fuel,
}
use minuet_lang_mirror.Frontend.Lexicals
use minuet_lang_mirror.Frontend.Lexicals.{
  TokenType, unknown, Text, LexicalEntry, Token, inc32, dec32, inc16, span_length, substr,
}
use minuet_lang_mirror.Frontend.Lexing.State.{
  match_spaces, match_alpha, match_digit, match_numeric, match_alphanum, match_operator, Lexer,
  find_item, at_eof, char_at, advance, token_from, rounds,
}
use minuet_lang_mirror.Frontend.Lexing.Quotes.{lex_single, lex_between, lex_char}
use minuet_lang_mirror.Frontend.Lexing.Words.{lex_spaces, lex_operator, lex_word, lex_numeric}

-- The tag of a byte that is a token by itself.
unfoldable pub single_tag : ℕ → Option TokenType
single_tag c =
    if c == 0
    then some TokenType.eof
    else if c == b'['
    then some TokenType.open_bracket
    else if c == b']'
    then some TokenType.close_bracket
    else if c == b'{'
    then some TokenType.open_brace
    else if c == b'}'
    then some TokenType.close_brace
    else if c == b'('
    then some TokenType.open_paren
    else if c == b')'
    then some TokenType.close_paren
    else if c == b','
    then some TokenType.comma
    else if c == b':'
    then some TokenType.colon
    else if c == b'.'
    then some TokenType.dot
    else none

-- The tests behind the `switch`.
unfoldable pub lex_class : ℕ → ℕ → Text → Lexer → Run (Token × Lexer)
unfolding match_alpha match_digit match_operator lex_word lex_numeric lex_operator lex_single
lex_class peek_0 peek_1 sv l =
    if match_alpha peek_0
    then lex_word sv l
    else if match_digit peek_0 || (peek_0 == b'-' && match_digit peek_1)
    then lex_numeric sv l
    else if match_operator peek_0
    then lex_operator sv l
    else lex_single unknown sv l

unfoldable pub lex_single_or_class : Option TokenType → ℕ → ℕ → Text → Lexer → Run (Token × Lexer)
unfolding lex_single lex_class
lex_single_or_class (some tag) peek_0 peek_1 sv l = lex_single tag sv l
lex_single_or_class none peek_0 peek_1 sv l = lex_class peek_0 peek_1 sv l

-- `Lexer::operator()` in front of the end of the source.
unfoldable pub lex_from : ℕ → ℕ → Text → Lexer → Run (Token × Lexer)
unfolding match_spaces lex_spaces lex_between lex_char single_tag lex_single_or_class
lex_from peek_0 peek_1 sv l =
    if match_spaces peek_0
    then lex_spaces sv l
    else if peek_0 == b'#'
    then lex_between peek_0 TokenType.comment sv l
    else if peek_0 == b'"'
    then lex_between peek_0 TokenType.literal_string sv l
    else if peek_0 == b'\''
    then lex_char sv l
    else lex_single_or_class (single_tag peek_0) peek_0 peek_1 sv l

-- `Lexer::operator()`
unfoldable pub lex : Text → Lexer → Run (Token × Lexer)
unfolding lex_from
lex sv l =
    let found = do
      peek_0 ← char_at sv l.pos
      peek_1 ← char_at sv (l.pos + 1)
      lex_from peek_0 peek_1 sv l
    in if at_eof l then done (token_from l TokenType.eof l.end l.end, l) else found
