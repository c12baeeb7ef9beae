-- ===== src/Frontend/Lexing/Quotes/Chars.antt =====
-- What `lex_char` of src/frontend/lexing.cpp makes of a quote.
use minuet_lang_mirror.Base.{
  ℕ, zero, suc, ◌+◌, Bool, true, false, ◌&&◌, ◌≡◌, refl, ap, ltb, if◌then◌else◌, arith, Run, done,
  length,
}
use minuet_lang_mirror.Base.Ensures.{
  Ensures, returned, faulted, after, bind, if_Ensures, holds_of_done,
}
use minuet_lang_mirror.Frontend.Lexicals.{TokenType, unknown, Text, Token, inc32}
use minuet_lang_mirror.Frontend.Lexing.State.{Lexer, at_eof, char_at, token_from}
use minuet_lang_mirror.Frontend.Lexing.Quotes.{CharScan, char_loop, lex_char}

abbrev scan_valid : CharScan → Bool
scan_valid s = s.closed && s.size_valid && s.escapes_valid

ltb_self : (n : ℕ) → ltb n n ≡ false
ltb_self n = ground arith

-- The loop's two bounds are equal from the start and stay so, so a literal that is closed is empty.
char_loop-Ensures :
    (n : ℕ) (sv : Text) (b : ℕ) (s : CharScan)
    → s.closed ≡ false
    → Ensures (λ s'. scan_valid s' ≡ false) (char_loop n sv b b s)
unfolding char_loop inc32
char_loop-Ensures zero sv b s unclosed = faulted
char_loop-Ensures (suc n) sv b s unclosed =
    if_Ensures (at_eof s.lexer) (returned (rw unclosed refl)) (
      after (char_at sv s.lexer.pos)
        (λ c. if_Ensures _ (returned (rw (ltb_self b) refl)) (char_loop-Ensures n sv b _ unclosed)))

-- The rest of `lex_char`, behind its loop.
abbrev finish : Lexer → CharScan → Run (Token × Lexer)
finish l s =
    done
      (token_from l (if scan_valid s then TokenType.literal_char else unknown) l.pos l.pos, s.lexer)

-- Whatever the source and the lexer's place in it, the token that a quote gives has the type
-- `unknown`: no character literal is accepted.
pub lex_char-unknown :
    (sv : Text) (l l' : Lexer) (t : Token) → lex_char sv l ≡ done (t, l') → t.type ≡ unknown
unfolding lex_char inc32
lex_char-unknown sv l l' t ran =
    let behind : Lexer = record l { pos = inc32 l.pos } in
    let first : CharScan = record {
      escapes = 0;
      escapes_valid = true;
      size_valid = true;
      closed = false;
      lexer = behind;
    } in
    holds_of_done {P = λ r. r.0.type ≡ unknown}
      (bind {f = finish behind} (char_loop-Ensures (length sv + 2) sv behind.pos first refl)
        (λ s invalid.
          returned {a = (token_from behind _ behind.pos behind.pos, s.lexer)}
            (ap (λ valid. if valid then TokenType.literal_char else unknown) invalid)))
      ran
