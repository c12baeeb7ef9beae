-- ===== src/Frontend/Lexing/Dispatch/Totality.antt =====
-- The results of `Lexer::operator()` of src/frontend/lexing.cpp on every byte but a quote.
use minuet_lang_mirror.Base.{
  ℕ, suc, ◌+◌, ◌-◌, ◌<◌, ◌≤◌, Bool, true, false, ◌||◌, ◌&&◌, ◌≡◌, refl, ap, ◌∙◌, inl, inr, Option,
  none, some, length, get_elem?, arith, Run, done, ◌>>=◌, Bool-cases, if◌then◌else◌, ◌==◌,
  lt_of_get_elem?, get_elem?-beyond,
}
use minuet_lang_mirror.Frontend.Lexicals.{
  TokenType, unknown, Text, Token, inc32, span_length, substr,
}
use minuet_lang_mirror.Frontend.Lexing.State.{
  match_spaces, match_alpha, match_digit, match_numeric, match_alphanum, match_operator, Lexer,
  at_eof, char_at, advance, rounds, find_item, token_from,
}
use minuet_lang_mirror.Frontend.Lexing.Quotes.{lex_single, lex_between}
use minuet_lang_mirror.Frontend.Lexing.Words.{
  lex_spaces, lex_operator, lex_word, numeric_loop, lex_numeric, numeric_tag,
}
use minuet_lang_mirror.Frontend.Lexing.Words.Scanning.{IsPlaced, char_at_inside, advance-end}
use minuet_lang_mirror.Frontend.Lexing.Dispatch.Progress.{
  Moved, Lexed, if_Lexed, Moved-advance, Moved-trans, scan_loop-Moved, numeric_loop-Onward,
  between_loop-Onward,
}
use minuet_lang_mirror.Frontend.Lexing.Dispatch.{
  single_tag, lex_class, lex_single_or_class, lex_from, lex,
}

-- The byte behind the last one can be read.
char_at_upto : (sv : Text) (i : ℕ) → i ≤ length sv → (c : ℕ) × (char_at sv i ≡ done c)
char_at_upto sv i h = elim (Bool-cases (i == length sv)) [
  | inl ended ↦
      let here : i ≡ length sv = ground (arith, ended) in
      (0, rw (ended, get_elem?-beyond sv i (omega (arith, here))) refl)
  | inr before ↦
      let inside : i < length sv = ground (arith, before, h) in
      let (c, there, read) = char_at_inside sv i inside in (c, read)
]

or_left : (a b : Bool) → a ≡ true → (a || b) ≡ true
or_left a b h = rw h refl

or_right : (a b : Bool) → b ≡ true → (a || b) ≡ true
or_right true b h = refl
or_right false b h = h

module _ (sv : Text) (l : Lexer) (c : ℕ) (p : IsPlaced sv l)
    (there : get_elem? sv l.pos ≡ some c) where
  before : l.pos < l.end
  before = omega (arith, p.whole, lt_of_get_elem? sv l.pos there)

  read : char_at sv l.pos ≡ done c
  read =
      let (d, found, read) = char_at_inside sv l.pos (lt_of_get_elem? sv l.pos there) in
      let same : d ≡ c = cc in read ∙ ap done same

  lex_single-Lexed : (tag : TokenType) → Lexed sv l (lex_single tag sv l)
  unfolding lex_single
  lex_single-Lexed tag =
      (token_from l tag l.pos l.pos, advance l c, rw read refl, Moved-advance sv l c p before)

  lex_between-Lexed : (delim : ℕ) (tag : TokenType) → Lexed sv l (lex_between delim tag sv l)
  unfolding lex_between
  lex_between-Lexed delim tag =
      let m = Moved-advance sv l c p before in
      let (r, ran, o) =
        between_loop-Onward sv (suc ((advance l c).end - (advance l c).pos)) delim (advance l c)
          (advance l c).pos m.placed (omega arith) in
      (
        token_from (advance l c) (if r.1 then tag else unknown) (advance l c).pos r.0,
        r.2,
        rw (read, ran) refl,
        Moved-trans sv l (advance l c) r.2 m o,
      )

  lex_spaces-Lexed : match_spaces c ≡ true → Lexed sv l (lex_spaces sv l)
  unfolding lex_spaces
  lex_spaces-Lexed taken =
      let (temp_end, l', ran, m) = scan_loop-Moved match_spaces sv l c p there taken in
      (token_from l TokenType.spaces l.pos temp_end, l', rw ran refl, m)

  abbrev found : TokenType → ℕ → Lexer → TokenType
  found missing temp_end l' =
      find_item missing (substr sv l.pos (span_length l.pos temp_end)) l'.items

  lex_operator-Lexed : match_operator c ≡ true → Lexed sv l (lex_operator sv l)
  unfolding lex_operator
  lex_operator-Lexed taken =
      let (temp_end, l', ran, m) = scan_loop-Moved match_operator sv l c p there taken in
      (token_from l (found unknown temp_end l') l.pos temp_end, l', rw ran refl, m)

  lex_word-Lexed : match_alpha c ≡ true → Lexed sv l (lex_word sv l)
  unfolding lex_word match_alphanum
  lex_word-Lexed taken =
      let (temp_end, l', ran, m) =
        scan_loop-Moved match_alphanum sv l c p there (or_right (match_digit c) _ taken) in
      (token_from l (found TokenType.identifier temp_end l') l.pos temp_end, l', rw ran refl, m)

  numeric_loop-Moved :
      (match_digit c || c == b'-') ≡ true
      → (r : ℕ × ℕ × ℕ × Lexer) × (numeric_loop (rounds l) sv l.pos 0 0 l ≡ done r) × Moved sv l r.3
  unfolding numeric_loop match_numeric
  numeric_loop-Moved taken =
      let m = Moved-advance sv l c p before in
      let going : at_eof l ≡ false = ground (arith, before) in
      let numeric : (match_numeric c || c == b'-') ≡ true = elim (Bool-cases (match_digit c)) [
        | inl digit ↦ rw digit refl
        | inr other ↦ or_right (match_numeric c) _ (rw other at taken)
      ] in
      let (r, ran, o) =
        numeric_loop-Onward sv (l.end - l.pos) (advance l c) (inc32 l.pos)
          (if c == b'.' then 1 else 0) (if c == b'-' then 1 else 0) m.placed
          (omega (arith, m.further, advance-end l c, before)) in
      (r, rw (going, read, numeric) ran, Moved-trans sv l (advance l c) r.3 m o)

  lex_numeric-Lexed : (match_digit c || c == b'-') ≡ true → Lexed sv l (lex_numeric sv l)
  unfolding lex_numeric
  lex_numeric-Lexed taken =
      let (r, ran, m) = numeric_loop-Moved taken in
      (token_from l (numeric_tag r.1 r.2) l.pos r.0, r.3, rw ran refl, m)

  lex_class-Lexed : (peek_1 : ℕ) → Lexed sv l (lex_class c peek_1 sv l)
  unfolding lex_class
  lex_class-Lexed peek_1 = if_Lexed sv l (match_alpha c) _ _ lex_word-Lexed (λ _.
      if_Lexed sv l (match_digit c || c == b'-' && match_digit peek_1) _ _
        (λ h. lex_numeric-Lexed (numeric_first (match_digit c) (c == b'-') (match_digit peek_1) h))
        (λ _.
          if_Lexed sv l (match_operator c) _ _ lex_operator-Lexed (λ _. lex_single-Lexed unknown)))
    where
      numeric_first : (a b d : Bool) → (a || b && d) ≡ true → (a || b) ≡ true
      numeric_first true b d h = refl
      numeric_first false true d h = refl
      numeric_first false false d h = h

  lex_single_or_class-Lexed :
      (tag : Option TokenType) (peek_1 : ℕ) → Lexed sv l (lex_single_or_class tag c peek_1 sv l)
  unfolding lex_single_or_class
  lex_single_or_class-Lexed (some tag) peek_1 = lex_single-Lexed tag
  lex_single_or_class-Lexed none peek_1 = lex_class-Lexed peek_1

  lex_from-Lexed : (peek_1 : ℕ) → (c == b'\'') ≡ false → Lexed sv l (lex_from c peek_1 sv l)
  unfolding lex_from
  lex_from-Lexed peek_1 unquoted = if_Lexed sv l (match_spaces c) _ _ lex_spaces-Lexed (λ _.
      if_Lexed sv l (c == b'#') _ _ (λ _. lex_between-Lexed c TokenType.comment)
        (λ _.
          if_Lexed sv l (c == b'"') _ _ (λ _. lex_between-Lexed c TokenType.literal_string)
            (λ _.
              if_Lexed sv l (c == b'\'') _ _ (λ quoted. absurd (cc))
                (λ _. lex_single_or_class-Lexed (single_tag c) peek_1))))

dispatched :
    (sv : Text) (l : Lexer) (c d : ℕ)
    → at_eof l ≡ false
    → char_at sv l.pos ≡ done c
    → char_at sv (l.pos + 1) ≡ done d
    → lex sv l ≡ lex_from c d sv l
unfolding lex
dispatched sv l c d going read next =
    ap (λ b. if b then done (token_from l TokenType.eof l.end l.end, l) else found) going
    ∙ ap (λ m. m >>= λ p. char_at sv (l.pos + 1) >>= λ q. lex_from p q sv l) read
    ∙ ap (λ m. m >>= λ q. lex_from c q sv l) next
  where
    found : Run (Token × Lexer)
    found = do p ← char_at sv l.pos; q ← char_at sv (l.pos + 1); lex_from p q sv l

-- In front of any byte that is not a single quote, at a place inside a source shorter than 2 ^ 32 - 1
-- bytes, `Lexer::operator()` returns a token, with no read past the source's end, and leaves the
-- lexer further on, inside the source, with the same lexemes.
pub lex-Moved :
    (sv : Text) (l : Lexer) (c : ℕ)
    → IsPlaced sv l
    → get_elem? sv l.pos ≡ some c
    → (c == b'\'') ≡ false
    → (t : Token) × (l' : Lexer) × (lex sv l ≡ done (t, l')) × Moved sv l l'
lex-Moved sv l c p there unquoted =
    let inside = before sv l c p there in
    let going : at_eof l ≡ false = ground (arith, inside) in
    let (peek_1, next) = char_at_upto sv (l.pos + 1) (omega (arith, inside, p.whole)) in
    let (t, l', ran, m) = lex_from-Lexed sv l c p there peek_1 unquoted in
    (t, l', dispatched sv l c peek_1 going (read sv l c p there) next ∙ ran, m)
