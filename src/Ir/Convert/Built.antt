-- ===== src/Ir/Convert/Built.antt =====
-- What the emission of a statement leaves: more blocks, whose steps are those of structured code.
use minuet_lang_mirror.Codegen.Layout.Outlines.{Outline, nothing, join, outline}
use minuet_lang_mirror.Base.{
  ◌≡◌, refl, sym, ap, ◌∙◌, Bool, true, ◌&&◌, not, List, [], ◌∷◌, ◌++◌, Run, ◌>>=◌, eq_ℤ,
}
use mathlib.Core.List.{append_assoc, append-nil}
use minuet_lang_mirror.Ir.Steps.{Step}
use minuet_lang_mirror.Ir.Graph.{BasicBlock, Cfg, dud_bb_id}
use minuet_lang_mirror.Ir.Convert.State.{Conversion, BbLink}
use minuet_lang_mirror.Codegen.Layout.{Code, skip, straight, seq, steps_of, valid}
pub use minuet_lang_mirror.Codegen.Layout.Ordering.{flat}
use minuet_lang_mirror.Codegen.Layout.Pieces.{both_true}
use minuet_lang_mirror.Ir.Convert.Wrote.{
  Gives, given, thrown, Plain, Named, at, extend, Wrote, wrote,
}

pub flat-append : (xs ys : List BasicBlock) → flat (xs ++ ys) ≡ flat xs ++ flat ys
flat-append [] ys = refl
flat-append (x ∷ xs) ys = rw (flat-append xs ys) (sym (append_assoc x.steps (flat xs) (flat ys)))

pub flat-extend :
    (blocks : List BasicBlock) (bb : BasicBlock) (ss : List Step)
    → flat (blocks ++ extend bb ss ∷ []) ≡ flat (blocks ++ bb ∷ []) ++ ss
flat-extend blocks bb ss =
    rw (flat-append blocks (extend bb ss ∷ []), flat-append blocks (bb ∷ []))
      (simp (append_assoc, append-nil) refl)

-- No link names the id of a block that failed.
abbrev pub whole_link : BbLink → Bool
whole_link l = not (eq_ℤ l.from dud_bb_id) && not (eq_ℤ l.to dud_bb_id)

abbrev pub whole : List BbLink → Bool
whole [] = true
whole (l ∷ ls) = whole_link l && whole ls

pub whole-append :
    (xs ys : List BbLink) → whole (xs ++ ys) ≡ true → (whole xs ≡ true) × (whole ys ≡ true)
whole-append [] ys h = (refl, h)
whole-append (x ∷ xs) ys h =
    let (here, rest) = both_true (whole_link x) (whole (xs ++ ys)) h in
    let (left, right) = whole-append xs ys rest in (rw (here, left) refl, right)

-- Steps of structured code, whose breaks stand inside loops or, if `inside`, anywhere.
abbrev pub Shaped : Bool → Outline → List Step → Type 0
Shaped inside shape ss =
    (k : Code) × (ss ≡ steps_of k) × (valid inside k ≡ true) × (outline k ≡ shape)

pub Shaped-append :
    (inside : Bool) {p q : Outline} (xs ys : List Step)
    → Shaped inside p xs
    → Shaped inside q ys
    → Shaped inside (join p q) (xs ++ ys)
unfolding valid
Shaped-append inside xs ys (a, ea, va, oa) (b, eb, vb, ob) =
    (seq a b, rw (ea, eb) refl, rw (va, vb) refl, rw (oa, ob) refl)

pub Plain-Shaped : (inside : Bool) (ss : List Step) → Plain ss → Shaped inside nothing ss
unfolding valid
Plain-Shaped inside [] p = (skip, refl, refl, refl)
Plain-Shaped inside (s ∷ ss) ((lowers, calm), p) =
    let (k, e, v, o) = Plain-Shaped inside ss p in
    (seq (straight s) k, rw e refl, rw (lowers, calm, v) refl, o)

module _ (before : List Cfg) where
  -- The newest graph has grown: `new` links wait behind `links`, and if none of them names a block
  -- that failed and the result is good, the graph has its old steps `base` with structured code
  -- behind them.
  pub data Built {X : Type 0} (G : X → Type 0) (inside : Bool) (shape : Outline) (base : List Step)
      (links : List BbLink) : X × Conversion → Type 0 where
    built :
        {x : X} {c : Conversion} (blocks : List BasicBlock) (bb : BasicBlock) (new : List BbLink)
        → Named c
        → c.pending_links ≡ links ++ new
        → (whole new ≡ true
            → G x
            → (ss : List Step) × (flat (blocks ++ bb ∷ []) ≡ base ++ ss) × Shaped inside shape ss)
        → Built G inside shape base links (x, at c before blocks bb)

  pub after_Built :
      {X Y : Type 0} {G : X → Type 0} {Q : Y × Conversion → Type 0} {inside : Bool}
      {shape : Outline} {base : List Step} {links : List BbLink} {m : Run (X × Conversion)}
      (f : X × Conversion → Run (Y × Conversion))
      → Gives (Built G inside shape base links) m
      → ((x : X) (c : Conversion) (blocks : List BasicBlock) (bb : BasicBlock) (new : List BbLink)
          → Named c
          → c.pending_links ≡ links ++ new
          → (whole new ≡ true
              → G x
              → (ss : List Step) × (flat (blocks ++ bb ∷ []) ≡ base ++ ss) × Shaped inside shape ss)
          → Gives Q (f (x, at c before blocks bb)))
      → Gives Q (m >>= f)
  after_Built f (given (built blocks bb new named same pay)) next =
      next _ _ blocks bb new named same pay
  after_Built f (thrown h) next = thrown h

  pub after_Wrote :
      {X Y : Type 0} {T : X → Type 0} {Q : Y × Conversion → Type 0} {blocks : List BasicBlock}
      {links : List BbLink} {bb : BasicBlock} {m : Run (X × Conversion)}
      (f : X × Conversion → Run (Y × Conversion))
      → Gives (Wrote before blocks T links bb) m
      → ((x : X) (c : Conversion) (ss : List Step)
          → T x
          → Plain ss
          → Named c
          → c.pending_links ≡ links
          → Gives Q (f (x, at c before blocks (extend bb ss))))
      → Gives Q (m >>= f)
  after_Wrote f (given (wrote ss t plain named same)) next = next _ _ ss t plain named same
  after_Wrote f (thrown h) next = thrown h

  -- What follows a statement goes on from its steps.
  pub go_on_Built :
      {Y : Type 0} {H : Y → Type 0} {G : Type 0} {inside : Bool} {shape more_shape : Outline}
      {base : List Step} {links pending : List BbLink} {middle : List Step} (new : List BbLink)
      {n : Run (Y × Conversion)}
      → G
      → pending ≡ links ++ new
      → (whole new ≡ true → G → (ss : List Step) × (middle ≡ base ++ ss) × Shaped inside shape ss)
      → Gives (Built H inside more_shape middle pending) n
      → Gives (Built H inside (join shape more_shape) base links) n
  go_on_Built {inside = inside} {base = base} {links = links} new g same pay
        (given (built blocks' bb' more named same' pay')) =
      given (
        built blocks' bb' (new ++ more) named
          (same' ∙ ap (λ l. l ++ more) same ∙ append_assoc links new more)
          λ w good.
            let (left, right) = whole-append new more w in
            let (ts, e', s') = pay' right good in
            let (ss, e, s) = pay left g in
            (
              ss ++ ts,
              e' ∙ ap (λ z. z ++ ts) e ∙ append_assoc base ss ts,
              Shaped-append inside ss ts s s',
            ))
  go_on_Built new g same pay (thrown h) = thrown h
