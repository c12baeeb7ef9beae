-- ===== src/Frontend/Lexing/Words/Tokens.antt =====
-- The tokens of `lex_word` and `lex_operator` of src/frontend/lexing.cpp, and their texts.
use minuet_lang_mirror.Base.{
  ltb, ℕ, zero, suc, ◌+◌, ◌-◌, ◌<◌, ◌≤◌, ◌^◌, Bool, true, false, ◌≡◌, refl, sym, ap, ◌∙◌, ◌⊎◌, inl,
  inr, some, List, [], ◌∷◌, length, get_elem?, arith, done, take, drop, ◌||◌,
}
use minuet_lang_mirror.Frontend.Lexicals.{
  TokenType, unknown, Text, Token, dec32, span_length, token_length, token_to_sv, checked_substr,
  substr,
}
use minuet_lang_mirror.Frontend.Lexing.State.{
  match_alpha, match_digit, match_alphanum, match_operator, Lexer, find_item, rounds, token_from,
}
use minuet_lang_mirror.Frontend.Lexing.Words.{scan_loop, lex_operator, lex_word}
use minuet_lang_mirror.Frontend.Lexing.Words.Scanning.{
  IsPlaced, Munched, scan_loop-Munched, Munched-further,
}

or_right : (a b : Bool) → b ≡ true → (a || b) ≡ true
or_right true b h = refl
or_right false b h = h

take_all : {A : Type 0} (n : ℕ) (xs : List A) → length xs ≤ n → take n xs ≡ xs
take_all zero [] h = refl
take_all zero (x ∷ xs) h = absurd (omega arith)
take_all (suc n) [] h = refl
take_all (suc n) (x ∷ xs) h = ap (◌∷◌ x) (take_all n xs (omega arith))

length-drop : {A : Type 0} (n : ℕ) (xs : List A) → length (drop n xs) ≡ length xs - n
length-drop zero xs = omega arith
length-drop (suc n) [] = omega arith
length-drop (suc n) (x ∷ xs) = omega (arith, length-drop n xs)

span_length_lem :
    (start end : ℕ)
    → start ≤ end
    → end + 1 - start < 2 ^ 32
    → span_length start end ≡ end + 1 - start
unfolding span_length
span_length_lem start end h b = omega arith

span_to_last :
    (start next : ℕ) → start < next → next < 2 ^ 32 → span_length start (dec32 next) ≡ next - start
unfolding span_length dec32
span_to_last start next h b = omega arith

-- The text of a token is the bytes that its loop took, at the end of the source too, where the
-- token's end is one further.
Munched-substr :
    (keep : ℕ → Bool) (sv : Text) (l l' : Lexer) (temp_end : ℕ)
    → l.pos < l'.pos
    → Munched keep sv l temp_end l'
    → substr sv l.pos (span_length l.pos temp_end) ≡ substr sv l.pos (l'.pos - l.pos)
Munched-substr keep sv l l' temp_end further m = elim m.stopped [
  | inr (c, there, other, last) ↦
      let same : span_length l.pos temp_end ≡ l'.pos - l.pos =
        ap (span_length l.pos) last
        ∙ span_to_last l.pos l'.pos further (omega (arith, m.placed.inside, m.placed.short)) in
      ap (λ n. take n (drop l.pos sv)) same
  | inl (ended, last) ↦
      let small : temp_end + 1 - l.pos < 2 ^ 32 = omega (arith, m.placed.short, last) in
      let size : span_length l.pos temp_end ≡ temp_end + 1 - l.pos =
        span_length_lem l.pos temp_end (omega (arith, last, ended, further)) small in
      let rest : length (drop l.pos sv) ≡ l'.end - l.pos =
        length-drop l.pos sv ∙ ap (λ n. n - l.pos) (sym m.placed.whole) in
      take_all (span_length l.pos temp_end) (drop l.pos sv) (omega (arith, size, rest, last))
      ∙ sym (take_all (l'.pos - l.pos) (drop l.pos sv) (omega (arith, rest, ended)))
]

-- A token that holds the bytes from the lexer's place to the next one, all of a class and as many as
-- there are, and has the type that the lexemes give that text.
pub record LooksUp (keep : ℕ → Bool) (missing : TokenType) (sv : Text) (l : Lexer) (t : Token)
    (l' : Lexer) : Type 0 where
  pub further : l.pos < l'.pos
  pub inside : l'.pos ≤ length sv
  pub text : token_to_sv t sv ≡ done (substr sv l.pos (l'.pos - l.pos))
  pub type : t.type ≡ find_item missing (substr sv l.pos (l'.pos - l.pos)) l.items
  pub kept :
      (i : ℕ) → l.pos ≤ i → i < l'.pos → (c : ℕ) × (get_elem? sv i ≡ some c) × (keep c ≡ true)
  pub stopped : (l'.pos ≡ length sv) ⊎ ((c : ℕ) × (get_elem? sv l'.pos ≡ some c) × (keep c ≡ false))

module _ (keep : ℕ → Bool) (missing : TokenType) (sv : Text) (l : Lexer) (c : ℕ) where
  abbrev found : ℕ → Lexer → Token
  found temp_end l' =
      token_from l (find_item missing (substr sv l.pos (span_length l.pos temp_end)) l'.items) l.pos
        temp_end

  scan_loop-LooksUp :
      IsPlaced sv l
      → get_elem? sv l.pos ≡ some c
      → keep c ≡ true
      → (temp_end : ℕ) × (l' : Lexer) × (scan_loop keep (rounds l) sv l.pos l ≡ done (temp_end, l'))
        × LooksUp keep missing sv l (found temp_end l') l'
  unfolding token_to_sv checked_substr token_length
  scan_loop-LooksUp p there taken =
      let (temp_end, l', ran, m) = scan_loop-Munched keep sv (rounds l) l p (omega arith) in
      let further = Munched-further keep sv l l' temp_end c there taken m in
      let begins : ltb (length sv) l.pos ≡ false =
        ground (arith, further, m.placed.inside, m.placed.whole) in
      let text = Munched-substr keep sv l l' temp_end further m in
      (
        temp_end,
        l',
        ran,
        record {
          further = further;
          inside = omega (arith, m.placed.inside, m.placed.whole);
          text = rw begins (ap done text);
          type =
              ap (λ w. find_item missing w l'.items) text ∙ ap (find_item missing _) m.same_items;
          kept = m.kept;
          stopped = elim m.stopped [
            | inl (ended, _) ↦ inl (ended ∙ m.placed.whole)
            | inr (d, found, other, _) ↦ inr (d, found, other)
          ];
        },
      )

alphanum : (c : ℕ) → match_alpha c ≡ true → match_alphanum c ≡ true
unfolding match_alphanum
alphanum c h = or_right (match_digit c) _ h

module _ (sv : Text) (l : Lexer) (c : ℕ) where
  -- At a letter or an underscore, `lex_word` returns a token whose text is the longest run of
  -- letters, digits and underscores from there on, typed as the lexeme of that text, or as an
  -- identifier where there is none. The source is shorter than 2 ^ 32 - 1 bytes.
  pub lex_word-LooksUp :
      IsPlaced sv l
      → get_elem? sv l.pos ≡ some c
      → match_alpha c ≡ true
      → (t : Token) × (l' : Lexer) × (lex_word sv l ≡ done (t, l'))
        × LooksUp match_alphanum TokenType.identifier sv l t l'
  unfolding lex_word
  lex_word-LooksUp p there taken =
      let (temp_end, l', ran, m) =
        scan_loop-LooksUp match_alphanum TokenType.identifier sv l c p there (alphanum c taken) in
      (found match_alphanum TokenType.identifier sv l c temp_end l', l', rw ran refl, m)

  -- At an operator's byte, `lex_operator` returns a token whose text is the longest run of such
  -- bytes from there on, typed as the lexeme of that text, or `unknown` where there is none. The
  -- source is shorter than 2 ^ 32 - 1 bytes.
  pub lex_operator-LooksUp :
      IsPlaced sv l
      → get_elem? sv l.pos ≡ some c
      → match_operator c ≡ true
      → (t : Token) × (l' : Lexer) × (lex_operator sv l ≡ done (t, l'))
        × LooksUp match_operator unknown sv l t l'
  unfolding lex_operator
  lex_operator-LooksUp p there taken =
      let (temp_end, l', ran, m) = scan_loop-LooksUp match_operator unknown sv l c p there taken in
      (found match_operator unknown sv l c temp_end l', l', rw ran refl, m)
