-- ===== src/Tests/Lexer.antt =====
-- The lexer of src/frontend/lexing.cpp on short sources.
use minuet_lang_mirror.Base.{◌≡◌, refl, arith, [], ◌∷◌, done, ℕ}
use minuet_lang_mirror.Frontend.Lexicals.{TokenType, unknown, Text, Token, inc32}
use minuet_lang_mirror.Frontend.Lexing.State.{Lexer, match_alpha, match_alphanum, fresh_lexer}
use minuet_lang_mirror.Frontend.Lexing.Quotes.{char_loop, lex_char}
use minuet_lang_mirror.Frontend.Lexing.Quotes.Chars.{lex_char-unknown}
use minuet_lang_mirror.Frontend.Lexing.Words.{scan_loop, lex_word}
use minuet_lang_mirror.Frontend.Lexing.Words.Scanning.{IsPlaced, Munched, scan_loop-Munched}
use minuet_lang_mirror.Frontend.Lexing.Words.Tokens.{LooksUp, lex_word-LooksUp}
use minuet_lang_mirror.Frontend.Lexing.Dispatch.{lex}
use minuet_lang_mirror.Frontend.Lexing.Dispatch.Progress.{Moved}
use minuet_lang_mirror.Frontend.Lexing.Dispatch.Totality.{lex-Moved}

-- `x1 >= 2`
abbrev source : Text
source = b'x' ∷ b'1' ∷ b' ' ∷ b'>' ∷ b'=' ∷ b' ' ∷ b'2' ∷ []

abbrev at : ℕ → Lexer
at place = record fresh_lexer { pos = place; end = 7 }

first-IsPlaced : IsPlaced source (at 0)
first-IsPlaced = record { whole = refl; inside = omega arith; short = omega arith }

third-IsPlaced : IsPlaced source (at 3)
third-IsPlaced = record { whole = refl; inside = omega arith; short = omega arith }

scan_loop-Munched_example :
    (temp_end : ℕ) × (l' : Lexer) × (scan_loop match_alphanum 8 source 0 (at 0)
      ≡ done (temp_end, l'))
    × Munched match_alphanum source (at 0) temp_end l'
scan_loop-Munched_example =
    scan_loop-Munched match_alphanum source 8 (at 0) first-IsPlaced (omega arith)

lex_word-LooksUp_example :
    (t : Token) × (l' : Lexer) × (lex_word source (at 0) ≡ done (t, l'))
    × LooksUp match_alphanum TokenType.identifier source (at 0) t l'
unfolding match_alpha
lex_word-LooksUp_example = lex_word-LooksUp source (at 0) b'x' first-IsPlaced refl refl

lex-Moved_example :
    (t : Token) × (l' : Lexer) × (lex source (at 0) ≡ done (t, l')) × Moved source (at 0) l'
lex-Moved_example = lex-Moved source (at 0) b'x' first-IsPlaced refl refl

-- `'a'`
abbrev quoted : Text
quoted = b'\'' ∷ b'a' ∷ b'\'' ∷ []

abbrev quoted_token : Token
quoted_token = record { type = unknown; start = 1; end = 1; line = 1; col = 1 }

lex_char-unknown_example : quoted_token.type ≡ unknown
unfolding lex_char char_loop inc32
lex_char-unknown_example =
    lex_char-unknown quoted (record fresh_lexer { end = 3 })
      (record fresh_lexer { pos = 2; end = 4 }) quoted_token refl
