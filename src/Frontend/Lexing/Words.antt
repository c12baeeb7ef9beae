-- ===== src/Frontend/Lexing/Words.antt =====
-- Spaces, words, operators and numbers: src/frontend/lexing.cpp.
pub mod Scanning
pub mod Tokens
use minuet_lang_mirror.Base.{
  ℕ, zero, suc, ◌+◌, ◌-◌, Bool, true, false, not, ◌&&◌, ◌||◌, Option, none, some, List, [], ◌∷◌,
  length, get_elem?, leb, ltb, ◌==◌, if◌then◌else◌, Run, done, fault, ◌>>=◌, bad_index, no_fuel,
}
use minuet_lang_mirror.Frontend.Lexicals
use minuet_lang_mirror.Frontend.Lexicals.{
  TokenType, unknown, Text, LexicalEntry, Token, inc32, dec32, inc16, span_length, substr,
}
use minuet_lang_mirror.Frontend.Lexing.State.{
  match_spaces, match_alpha, match_digit, match_numeric, match_alphanum, match_operator, Lexer,
  find_item, at_eof, char_at, advance, token_from, rounds,
}

-- The loops of `lex_spaces`, `lex_operator` and `lex_word`: bytes are taken while `keep` holds.
unfoldable pub scan_loop : (ℕ → Bool) → ℕ → Text → ℕ → Lexer → Run (ℕ × Lexer)
unfolding advance inc32 dec32
scan_loop keep zero sv temp_end l = fault no_fuel
scan_loop keep (suc n) sv temp_end l =
    let round = do
      c ← char_at sv l.pos
      let more = scan_loop keep n sv (inc32 temp_end) (advance l c)
      if keep c then more else done (dec32 temp_end, l)
    in if at_eof l then done (temp_end, l) else round

-- `lex_spaces`
unfoldable pub lex_spaces : Text → Lexer → Run (Token × Lexer)
unfolding scan_loop match_spaces
lex_spaces sv l = do
  (temp_end, l') ← scan_loop match_spaces (rounds l) sv l.pos l
  done (token_from l TokenType.spaces l.pos temp_end, l')

-- `lex_operator` and `lex_word` look their text up among the lexemes.
unfoldable pub lex_operator : Text → Lexer → Run (Token × Lexer)
unfolding scan_loop match_operator span_length find_item
lex_operator sv l = do
  (temp_end, l') ← scan_loop match_operator (rounds l) sv l.pos l
  let lexeme = substr sv l.pos (span_length l.pos temp_end)
  done (token_from l (find_item unknown lexeme l'.items) l.pos temp_end, l')

unfoldable pub lex_word : Text → Lexer → Run (Token × Lexer)
unfolding scan_loop match_alphanum span_length find_item
lex_word sv l = do
  (temp_end, l') ← scan_loop match_alphanum (rounds l) sv l.pos l
  let lexeme = substr sv l.pos (span_length l.pos temp_end)
  done (token_from l (find_item TokenType.identifier lexeme l'.items) l.pos temp_end, l')

-- The loop of `lex_numeric`, which also counts dots and minuses.
unfoldable pub numeric_loop : ℕ → Text → ℕ → ℕ → ℕ → Lexer → Run (ℕ × ℕ × ℕ × Lexer)
unfolding advance inc32 dec32 match_numeric
numeric_loop zero sv temp_end dots minuses l = fault no_fuel
numeric_loop (suc n) sv temp_end dots minuses l =
    let round = do
      c ← char_at sv l.pos
      let dots' = if c == b'.' then dots + 1 else dots
      let minuses' = if c == b'-' then minuses + 1 else minuses
      let more = numeric_loop n sv (inc32 temp_end) dots' minuses' (advance l c)
      if match_numeric c || c == b'-' then more else done (dec32 temp_end, dots, minuses, l)
    in if at_eof l then done (temp_end, dots, minuses, l) else round

unfoldable pub numeric_tag : ℕ → ℕ → TokenType
numeric_tag dots minuses =
    if ltb 1 minuses
    then unknown
    else if dots == 0
    then TokenType.literal_int
    else if dots == 1
    then TokenType.literal_double
    else unknown

-- `lex_numeric`
unfoldable pub lex_numeric : Text → Lexer → Run (Token × Lexer)
unfolding numeric_loop numeric_tag
lex_numeric sv l = do
  (temp_end, dots, minuses, l') ← numeric_loop (rounds l) sv l.pos 0 0 l
  done (token_from l (numeric_tag dots minuses) l.pos temp_end, l')
