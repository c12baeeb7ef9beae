-- ===== src/Frontend/Lexing/Words/Scanning.antt =====
-- How far the loops of `lex_spaces`, `lex_operator`, `lex_word` and `lex_numeric` go:
-- src/frontend/lexing.cpp.
use minuet_lang_mirror.Base.{
  ◌≢◌, ℕ, zero, suc, ◌+◌, ◌-◌, ◌<◌, ◌≤◌, ◌^◌, Bool, true, false, ◌≡◌, refl, sym, ◌∙◌, ◌⊎◌, inl, inr,
  some, length, get_elem?, arith, done, Bool-cases, ◌==◌, lt_of_get_elem?, le_of_get_elem?,
  Option-cases,
}
use minuet_lang_mirror.Frontend.Lexicals.{Text, inc32, dec32}
use minuet_lang_mirror.Frontend.Lexing.State.{Lexer, at_eof, char_at, advance, update_src_location}
use minuet_lang_mirror.Frontend.Lexing.Words.{scan_loop}

-- The lexer stands inside a source whose places are 32-bit numbers.
pub record IsPlaced (sv : Text) (l : Lexer) : Type 0 where
  pub whole : l.end ≡ length sv
  pub inside : l.pos ≤ l.end
  pub short : l.end + 1 < 2 ^ 32

pub char_at_inside :
    (sv : Text) (i : ℕ)
    → i < length sv
    → (c : ℕ) × (get_elem? sv i ≡ some c) × (char_at sv i ≡ done c)
char_at_inside sv i h = elim (Option-cases (get_elem? sv i)) [
  | inl missing ↦ absurd (omega (arith, le_of_get_elem? sv i missing))
  | inr (c, there) ↦ (c, there, rw there refl)
]

pub inc32_small : (n : ℕ) → n + 1 < 2 ^ 32 → inc32 n ≡ n + 1
unfolding inc32
inc32_small n h = omega arith

pub advance-pos : (l : Lexer) (c : ℕ) → l.pos + 1 < 2 ^ 32 → (advance l c).pos ≡ l.pos + 1
unfolding advance update_src_location inc32
advance-pos l c h = elim (Bool-cases (c == b'\n')) [
  | inl newline ↦ rw newline (omega arith)
  | inr other ↦ rw other (omega arith)
]

pub advance-end : (l : Lexer) (c : ℕ) → (advance l c).end ≡ l.end
unfolding advance update_src_location
advance-end l c = elim (Bool-cases (c == b'\n')) [
  | inl newline ↦ rw newline refl
  | inr other ↦ rw other refl
]

pub advance-items : (l : Lexer) (c : ℕ) → (advance l c).items ≡ l.items
unfolding advance update_src_location
advance-items l c = elim (Bool-cases (c == b'\n')) [
  | inl newline ↦ rw newline refl
  | inr other ↦ rw other refl
]

pub advance-IsPlaced :
    (sv : Text) (l : Lexer) (c : ℕ) → IsPlaced sv l → l.pos < l.end → IsPlaced sv (advance l c)
advance-IsPlaced sv l c p h =
    let moved = advance-pos l c (omega (arith, p.inside, p.short, h)) in
    record {
      whole = advance-end l c ∙ p.whole;
      inside = omega (arith, moved, advance-end l c, h);
      short = omega (arith, advance-end l c, p.short);
    }

-- Where a loop that takes bytes while `keep` holds stops, and the end of the token that it gives.
pub record Munched (keep : ℕ → Bool) (sv : Text) (l : Lexer) (temp_end : ℕ) (l' : Lexer)
    : Type 0 where
  pub placed : IsPlaced sv l'
  pub onward : l.pos ≤ l'.pos
  pub same_items : l'.items ≡ l.items
  pub kept :
      (i : ℕ) → l.pos ≤ i → i < l'.pos → (c : ℕ) × (get_elem? sv i ≡ some c) × (keep c ≡ true)
  pub stopped :
      ((l'.pos ≡ l'.end) × (temp_end ≡ l'.end))
      ⊎ ((c : ℕ) × (get_elem? sv l'.pos ≡ some c) × (keep c ≡ false) × (temp_end ≡ dec32 l'.pos))

module _ (keep : ℕ → Bool) (sv : Text) where
  stop-Munched :
      (l : Lexer) (temp_end : ℕ)
      → IsPlaced sv l
      → ((l.pos ≡ l.end) × (temp_end ≡ l.end))
        ⊎ ((c : ℕ) × (get_elem? sv l.pos ≡ some c) × (keep c ≡ false) × (temp_end ≡ dec32 l.pos))
      → Munched keep sv l temp_end l
  stop-Munched l temp_end p stop = record {
    placed = p;
    onward = omega arith;
    same_items = refl;
    kept = λ i low high. absurd (omega (arith, low, high));
    stopped = stop;
  }

  -- One byte more in front.
  step-Munched :
      (l : Lexer) (c temp_end : ℕ) (l' : Lexer)
      → IsPlaced sv l
      → l.pos < l.end
      → get_elem? sv l.pos ≡ some c
      → keep c ≡ true
      → Munched keep sv (advance l c) temp_end l'
      → Munched keep sv l temp_end l'
  step-Munched l c temp_end l' p h there taken m = record {
    placed = m.placed;
    onward = omega (arith, moved, m.onward);
    same_items = m.same_items ∙ advance-items l c;
    kept = kept;
    stopped = m.stopped;
  }
    where
      moved : (advance l c).pos ≡ l.pos + 1
      moved = advance-pos l c (omega (arith, p.inside, p.short, h))

      kept :
          (i : ℕ) → l.pos ≤ i → i < l'.pos → (c : ℕ) × (get_elem? sv i ≡ some c) × (keep c ≡ true)
      kept i low high = elim (Bool-cases (i == l.pos)) [
        | inl first ↦ let here : l.pos ≡ i = ground arith in (c, rw (← here) there, taken)
        | inr later ↦
            let other : i ≢ l.pos = ground arith in m.kept i (omega (arith, moved, low, other)) high
      ]

  -- From a place inside a source shorter than 2 ^ 32 - 1 bytes, the loop ends within one round more
  -- than the bytes that are left. It takes all the bytes from there on that `keep` holds of, and
  -- stops at the end of the source or at the first other byte. The token's end is then the
  -- source's length, or the place of the last byte that was taken.
  pub scan_loop-Munched :
      (n : ℕ) (l : Lexer)
      → IsPlaced sv l
      → l.end - l.pos < n
      → (temp_end : ℕ) × (l' : Lexer) × (scan_loop keep n sv l.pos l ≡ done (temp_end, l'))
        × Munched keep sv l temp_end l'
  unfolding scan_loop
  scan_loop-Munched zero l p h = absurd (omega arith)
  scan_loop-Munched (suc n) l p h = elim (Bool-cases (at_eof l)) [
    | inl ended ↦
        let here : l.pos ≡ l.end = ground (arith, ended, p.inside) in
        (l.pos, l, rw ended refl, stop-Munched l l.pos p (inl (here, here)))
    | inr going ↦
        let before : l.pos < l.end = ground (arith, going) in
        let (c, there, read) = char_at_inside sv l.pos (omega (arith, before, p.whole)) in
        elim (Bool-cases (keep c)) [
          | inr other ↦ (
            dec32 l.pos,
            l,
            rw (going, read, other) refl,
            stop-Munched l _ p (inr (c, there, other, refl)),
          )
          | inl taken ↦
              let moved = advance-pos l c (omega (arith, p.inside, p.short, before)) in
              let fuel : (advance l c).end - (advance l c).pos < n =
                omega (arith, moved, advance-end l c, h, before) in
              let (temp_end, l', ran, m) =
                scan_loop-Munched n (advance l c) (advance-IsPlaced sv l c p before) fuel in
              let wrapped : inc32 l.pos ≡ (advance l c).pos =
                inc32_small l.pos (omega (arith, p.short, before)) ∙ sym moved in
              (
                temp_end,
                l',
                rw (going, read, taken, wrapped) ran,
                step-Munched l c temp_end l' p before there taken m,
              )
        ]
  ]

-- The loop moves when its first byte is taken.
pub Munched-further :
    (keep : ℕ → Bool) (sv : Text) (l l' : Lexer) (temp_end c : ℕ)
    → get_elem? sv l.pos ≡ some c
    → keep c ≡ true
    → Munched keep sv l temp_end l'
    → l.pos < l'.pos
Munched-further keep sv l l' temp_end c there taken m = elim (Bool-cases (l.pos == l'.pos)) [
  | inr moved ↦ ground (arith, moved, m.onward)
  | inl still ↦
      let same : l'.pos ≡ l.pos = ground (arith, still) in
      elim m.stopped [
        | inl (ended, _) ↦
            absurd (omega (arith, same, ended, m.placed.whole, lt_of_get_elem? sv l.pos there))
        | inr (d, found, other, _) ↦
            let here : get_elem? sv l.pos ≡ some d = rw (← same) found in
            let both : c ≡ d = cc in absurd (cc)
      ]
]
