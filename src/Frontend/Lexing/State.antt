-- ===== src/Frontend/Lexing/State.antt =====
-- The character classes of src/frontend/lexing.hpp, and the state of `Lexer`. A source is the view of
-- a `std::string`, whose bytes are followed by one zero byte that can be read.
use minuet_lang_mirror.Base.{
  ℕ, suc, ◌-◌, Bool, true, false, ◌&&◌, ◌||◌, Option, none, some, List, [], ◌∷◌, length, get_elem?,
  leb, ◌==◌, if◌then◌else◌, Run, done, fault, bad_index,
}
use minuet_lang_mirror.Frontend.Lexicals.{TokenType, Text, LexicalEntry, Token, inc32, inc16}

abbrev pub within : ℕ → ℕ → ℕ → Bool
within lo hi c = leb lo c && leb c hi

unfoldable pub match_spaces : ℕ → Bool
match_spaces c = c == b' ' || c == b'\t' || c == b'\r' || c == b'\n'

unfoldable pub match_alpha : ℕ → Bool
match_alpha c = within b'A' b'Z' c || within b'a' b'z' c || c == b'_'

unfoldable pub match_digit : ℕ → Bool
match_digit c = within b'0' b'9' c

unfoldable pub match_numeric : ℕ → Bool
unfolding match_digit
match_numeric c = match_digit c || c == b'.'

unfoldable pub match_alphanum : ℕ → Bool
unfolding match_digit match_alpha
match_alphanum c = match_digit c || match_alpha c

unfoldable pub match_operator : ℕ → Bool
match_operator c =
    c == b'*'
    || c == b'/'
    || c == b'%'
    || c == b'+'
    || c == b'-'
    || c == b'!'
    || c == b':'
    || c == b'='
    || c == b'<'
    || c == b'>'

pub record Lexer : Type 0 where
  pub items : List (Text × TokenType)
  pub pos : ℕ
  pub end : ℕ
  pub line : ℕ
  pub col : ℕ

abbrev pub text_eq : Text → Text → Bool
text_eq [] [] = true
text_eq (x ∷ xs) (y ∷ ys) = x == y && text_eq xs ys
text_eq _ _ = false

-- The map of lexemes: a write replaces the entry of the same text.
unfoldable pub insert_item : Text → TokenType → List (Text × TokenType) → List (Text × TokenType)
insert_item k t [] = (k, t) ∷ []
insert_item k t ((j, u) ∷ m) = if text_eq j k then (k, t) ∷ m else (j, u) ∷ insert_item k t m

unfoldable pub find_item : TokenType → Text → List (Text × TokenType) → TokenType
find_item missing k [] = missing
find_item missing k ((j, u) ∷ m) = if text_eq j k then u else find_item missing k m

abbrev pub fresh_lexer : Lexer
fresh_lexer = record { items = []; pos = 0; end = 0; line = 1; col = 1 }

unfoldable pub add_lexical_item : Lexer → LexicalEntry → Lexer
unfolding insert_item
add_lexical_item l entry = record l { items = insert_item entry.text entry.tag l.items }

unfoldable pub reset_with_src : Lexer → Text → Lexer
reset_with_src l next_src_v = record l { pos = 0; end = length next_src_v }

abbrev pub at_eof : Lexer → Bool
at_eof l = leb l.end l.pos

abbrev char_or_zero : Bool → Option ℕ → Run ℕ
char_or_zero at_end (some c) = done c
char_or_zero true none = done 0
char_or_zero false none = fault bad_index

-- `sv[i]`
abbrev pub char_at : Text → ℕ → Run ℕ
char_at sv i = char_or_zero (i == length sv) (get_elem? sv i)

unfoldable pub update_src_location : Lexer → ℕ → Lexer
unfolding inc16
update_src_location l c =
    if c == b'\n' then record l { line = inc16 l.line; col = 1 } else record l { col = inc16 l.col }

-- `update_src_location(c); ++m_pos;`
unfoldable pub advance : Lexer → ℕ → Lexer
unfolding inc32 update_src_location
advance l c = let l' = update_src_location l c in record l' { pos = inc32 l'.pos }

-- A token that begins at `start` with the location of `l`.
abbrev pub token_from : Lexer → TokenType → ℕ → ℕ → Token
token_from l tag start end = record {
  type = tag;
  start = start;
  end = end;
  line = l.line;
  col = l.col;
}

-- The rounds that a loop is given: one more than the bytes that are left.
abbrev pub rounds : Lexer → ℕ
rounds l = suc (l.end - l.pos)
