-- ===== src/Frontend/Lexing/Dispatch/Progress.antt =====
-- The steps that `Lexer::operator()` of src/frontend/lexing.cpp makes through a source.
use minuet_lang_mirror.Base.{
  ℕ, zero, suc, ◌+◌, ◌-◌, ◌<◌, ◌≤◌, Bool, true, false, ◌||◌, ◌≡◌, refl, ◌∙◌, inl, inr, some,
  get_elem?, arith, Run, done, Bool-cases, if◌then◌else◌, ◌==◌,
}
use minuet_lang_mirror.Frontend.Lexicals.{Text, Token, inc32, dec32}
use minuet_lang_mirror.Frontend.Lexing.State.{match_numeric, Lexer, at_eof, advance, rounds}
use minuet_lang_mirror.Frontend.Lexing.Quotes.{between_loop}
use minuet_lang_mirror.Frontend.Lexing.Words.{scan_loop, numeric_loop}
use minuet_lang_mirror.Frontend.Lexing.Words.Scanning.{
  IsPlaced, Munched-further, scan_loop-Munched, char_at_inside, advance-pos, advance-end,
  advance-items, advance-IsPlaced,
}

-- The lexer has moved on, inside the same source and with the same lexemes.
pub record Onward (sv : Text) (l l' : Lexer) : Type 0 where
  pub placed : IsPlaced sv l'
  pub onward : l.pos ≤ l'.pos
  pub same_items : l'.items ≡ l.items

pub record Moved (sv : Text) (l l' : Lexer) : Type 0 where
  pub placed : IsPlaced sv l'
  pub further : l.pos < l'.pos
  pub same_items : l'.items ≡ l.items

-- The code returns a token and a lexer that has moved on.
abbrev pub Lexed : Text → Lexer → Run (Token × Lexer) → Type 0
Lexed sv l m = (t : Token) × (l' : Lexer) × (m ≡ done (t, l')) × Moved sv l l'

module _ (sv : Text) (l : Lexer) where
  pub if_Lexed :
      (b : Bool) (m n : Run (Token × Lexer))
      → (b ≡ true → Lexed sv l m)
      → (b ≡ false → Lexed sv l n)
      → Lexed sv l (if b then m else n)
  if_Lexed true m n taken other = taken refl
  if_Lexed false m n taken other = other refl

  pub Moved-advance : (c : ℕ) → IsPlaced sv l → l.pos < l.end → Moved sv l (advance l c)
  Moved-advance c p h = record {
    placed = advance-IsPlaced sv l c p h;
    further = omega (arith, advance-pos l c (omega (arith, p.short, h)));
    same_items = advance-items l c;
  }

  pub Moved-trans : (l' l'' : Lexer) → Moved sv l l' → Onward sv l' l'' → Moved sv l l''
  Moved-trans l' l'' m o = record {
    placed = o.placed;
    further = omega (arith, m.further, o.onward);
    same_items = o.same_items ∙ m.same_items;
  }

Onward-refl : (sv : Text) (l : Lexer) → IsPlaced sv l → Onward sv l l
Onward-refl sv l p = record { placed = p; onward = omega arith; same_items = refl }

Onward-trans : (sv : Text) (l l' l'' : Lexer) → Moved sv l l' → Onward sv l' l'' → Onward sv l l''
Onward-trans sv l l' l'' m o = record {
  placed = o.placed;
  onward = omega (arith, m.further, o.onward);
  same_items = o.same_items ∙ m.same_items;
}

-- A loop whose first byte is taken moves on.
pub scan_loop-Moved :
    (keep : ℕ → Bool) (sv : Text) (l : Lexer) (c : ℕ)
    → IsPlaced sv l
    → get_elem? sv l.pos ≡ some c
    → keep c ≡ true
    → (temp_end : ℕ) × (l' : Lexer) × (scan_loop keep (rounds l) sv l.pos l ≡ done (temp_end, l'))
      × Moved sv l l'
scan_loop-Moved keep sv l c p there taken =
    let (temp_end, l', ran, m) = scan_loop-Munched keep sv (rounds l) l p (omega arith) in
    (
      temp_end,
      l',
      ran,
      record {
        placed = m.placed;
        further = Munched-further keep sv l l' temp_end c there taken m;
        same_items = m.same_items;
      },
    )

module _ (sv : Text) where
  pub numeric_loop-Onward :
      (n : ℕ) (l : Lexer) (temp_end dots minuses : ℕ)
      → IsPlaced sv l
      → l.end - l.pos < n
      → (r : ℕ × ℕ × ℕ × Lexer) × (numeric_loop n sv temp_end dots minuses l ≡ done r)
        × Onward sv l r.3
  unfolding numeric_loop
  numeric_loop-Onward zero l temp_end dots minuses p h = absurd (omega arith)
  numeric_loop-Onward (suc n) l temp_end dots minuses p h = elim (Bool-cases (at_eof l)) [
    | inl ended ↦ ((temp_end, dots, minuses, l), rw ended refl, Onward-refl sv l p)
    | inr going ↦
        let before : l.pos < l.end = ground (arith, going) in
        let (c, there, read) = char_at_inside sv l.pos (omega (arith, before, p.whole)) in
        let m = Moved-advance sv l c p before in
        let (r, ran, o) =
          numeric_loop-Onward n (advance l c) (inc32 temp_end)
            (if c == b'.' then dots + 1 else dots) (if c == b'-' then minuses + 1 else minuses)
            m.placed (omega (arith, m.further, advance-end l c, h, before)) in
        elim (Bool-cases (match_numeric c || c == b'-')) [
          | inl taken ↦ (r, rw (going, read, taken) ran, Onward-trans sv l (advance l c) r.3 m o)
          | inr other ↦
              ((dec32 temp_end, dots, minuses, l), rw (going, read, other) refl, Onward-refl sv l p)
        ]
  ]

  pub between_loop-Onward :
      (n delim : ℕ) (l : Lexer) (temp_end : ℕ)
      → IsPlaced sv l
      → l.end - l.pos < n
      → (r : ℕ × Bool × Lexer) × (between_loop n delim sv temp_end l ≡ done r) × Onward sv l r.2
  unfolding between_loop
  between_loop-Onward zero delim l temp_end p h = absurd (omega arith)
  between_loop-Onward (suc n) delim l temp_end p h = elim (Bool-cases (at_eof l)) [
    | inl ended ↦ ((temp_end, false, l), rw ended refl, Onward-refl sv l p)
    | inr going ↦
        let before : l.pos < l.end = ground (arith, going) in
        let (c, there, read) = char_at_inside sv l.pos (omega (arith, before, p.whole)) in
        let m = Moved-advance sv l c p before in
        let (r, ran, o) =
          between_loop-Onward n delim (advance l c) (inc32 temp_end) m.placed
            (omega (arith, m.further, advance-end l c, h, before)) in
        elim (Bool-cases (c == delim)) [
          | inl closed ↦ (
            (dec32 temp_end, true, advance l c),
            rw (going, read, closed) refl,
            Onward-trans sv l (advance l c) (advance l c) m (Onward-refl sv (advance l c) m.placed),
          )
          | inr more ↦ (r, rw (going, read, more) ran, Onward-trans sv l (advance l c) r.2 m o)
        ]
  ]
