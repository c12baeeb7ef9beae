-- ===== src/Frontend/Lexing/Quotes.antt =====
-- Tokens of one byte, comments, strings and character literals: src/frontend/lexing.cpp.
pub mod Chars
use minuet_lang_mirror.Base.{
  ℕ, zero, suc, ◌+◌, ◌-◌, Bool, true, false, not, ◌&&◌, ◌||◌, Option, none, some, List, [], ◌∷◌,
  length, get_elem?, leb, ltb, ◌==◌, if◌then◌else◌, Run, done, fault, ◌>>=◌, bad_index, no_fuel,
}
use minuet_lang_mirror.Frontend.Lexicals
use minuet_lang_mirror.Frontend.Lexicals.{
  TokenType, unknown, Text, LexicalEntry, Token, inc32, dec32, inc16, span_length, substr,
}
use minuet_lang_mirror.Frontend.Lexing.State.{
  match_spaces, match_alpha, match_digit, match_numeric, match_alphanum, match_operator, Lexer,
  find_item, at_eof, char_at, advance, token_from, rounds,
}

-- `lex_single`
unfoldable pub lex_single : TokenType → Text → Lexer → Run (Token × Lexer)
unfolding advance
lex_single tag sv l = do c ← char_at sv l.pos; done (token_from l tag l.pos l.pos, advance l c)

-- The loop of `lex_between`: the end of the token, whether it is closed, and the lexer behind it.
unfoldable pub between_loop : ℕ → ℕ → Text → ℕ → Lexer → Run (ℕ × Bool × Lexer)
unfolding advance dec32
between_loop zero delim sv temp_end l = fault no_fuel
between_loop (suc n) delim sv temp_end l =
    let round = do
      c ← char_at sv l.pos
      let l' = advance l c
      let more = between_loop n delim sv (inc32 temp_end) l'
      if c == delim then done (dec32 temp_end, true, l') else more
    in if at_eof l then done (temp_end, false, l) else round

-- `lex_between`
unfoldable pub lex_between : ℕ → TokenType → Text → Lexer → Run (Token × Lexer)
unfolding advance between_loop
lex_between delim tag sv l = do
  c ← char_at sv l.pos
  let l' = advance l c
  (temp_end, closed, l'') ← between_loop (suc (l'.end - l'.pos)) delim sv l'.pos l'
  done (token_from l' (if closed then tag else unknown) l'.pos temp_end, l'')

-- What the loop of `lex_char` leaves behind its variables that change.
pub record CharScan : Type 0 where
  pub escapes : ℕ
  pub escapes_valid : Bool
  pub size_valid : Bool
  pub closed : Bool
  pub lexer : Lexer

-- The loop of `lex_char`. It moves `m_end`, where the other loops move their `temp_end`, so the
-- end of the source never stops it.
unfoldable pub char_loop : ℕ → Text → ℕ → ℕ → CharScan → Run CharScan
unfolding inc32
char_loop zero sv temp_begin temp_end s = fault no_fuel
char_loop (suc n) sv temp_begin temp_end s =
    let round = do
      c ← char_at sv s.lexer.pos
      let escapes = if c == b'\\' then s.escapes + 1 else s.escapes
      let late = c == b'\\' && (ltb 1 escapes || ltb 0 (temp_end - temp_begin))
      let more = char_loop n sv temp_begin temp_end (record s {
        escapes = escapes;
        escapes_valid = s.escapes_valid && not late;
        lexer = record (s.lexer) { end = inc32 s.lexer.end; pos = inc32 s.lexer.pos };
      })
      if c == b'\'' || c == b'\n'
          then done (record s { size_valid = ltb temp_begin temp_end; closed = true })
          else more
    in if at_eof s.lexer then done s else round

-- `lex_char`; every round reads one byte further, so the source's length bounds them.
unfoldable pub lex_char : Text → Lexer → Run (Token × Lexer)
unfolding inc32 char_loop
lex_char sv l = do
  let l' = record l { pos = inc32 l.pos }
  s ←
      char_loop (length sv + 2) sv l'.pos l'.pos (record {
        escapes = 0;
        escapes_valid = true;
        size_valid = true;
        closed = false;
        lexer = l';
      })
  let valid = s.closed && s.size_valid && s.escapes_valid
  done (token_from l' (if valid then TokenType.literal_char else unknown) l'.pos l'.pos, s.lexer)
