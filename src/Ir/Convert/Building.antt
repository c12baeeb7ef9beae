-- ===== src/Ir/Convert/Building.antt =====
-- What a part of a statement promises, and what its last links and blocks add to the promise.
use minuet_lang_mirror.Codegen.Layout.Outlines.{Outline}
use minuet_lang_mirror.Base.{
  ℤ, ◌≡◌, refl, sym, ap, ◌∙◌, Bool, true, false, not, eq_ℤ, List, [], ◌∷◌, ◌++◌, Run, done,
}
use mathlib.Core.List.{append_assoc, append-nil}
use minuet_lang_mirror.Ir.Steps.{Step}
use minuet_lang_mirror.Ir.Graph.{BasicBlock, Cfg, dud_bb_id}
use minuet_lang_mirror.Ir.Convert.State.{Conversion, BbLink}
use minuet_lang_mirror.Ir.Convert.Wrote.{Gives, given, Named, at, extend}
use minuet_lang_mirror.Ir.Convert.Built.{
  flat, flat-append, flat-extend, whole, whole_link, Shaped, Built, built,
}
use minuet_lang_mirror.Codegen.Layout.Pieces.{both_true}
use minuet_lang_mirror.Ir.Convert.PartSteps.{fresh_block}

abbrev pub Good : Bool → Type 0
Good ok = ok ≡ true

abbrev pub GoodId : ℤ → Type 0
GoodId id = eq_ℤ id dud_bb_id ≡ false

pub three_more :
    (xs ys zs : List BbLink) (a b d : BbLink)
    → xs ≡ ys ++ zs
    → ((xs ++ a ∷ []) ++ b ∷ []) ++ d ∷ [] ≡ ys ++ (zs ++ a ∷ b ∷ d ∷ [])
three_more xs ys zs a b d h =
    append_assoc (xs ++ a ∷ []) (b ∷ []) (d ∷ [])
    ∙ append_assoc xs (a ∷ []) (b ∷ d ∷ [])
    ∙ ap (λ l. l ++ a ∷ b ∷ d ∷ []) h
    ∙ append_assoc ys zs (a ∷ b ∷ d ∷ [])

is_false : (b : Bool) → not b ≡ true → b ≡ false
is_false true h = absurd (cc)
is_false false h = refl

pub from_good :
    (from_id to_id : ℤ) (ls : List BbLink)
    → whole (record { from = from_id; to = to_id } ∷ ls) ≡ true
    → GoodId from_id
from_good from_id to_id ls h =
    let link : BbLink = record { from = from_id; to = to_id } in
    let (first, rest) = both_true (whole_link link) (whole ls) h in
    is_false _ (both_true (not (eq_ℤ from_id dud_bb_id)) (not (eq_ℤ to_id dud_bb_id)) first).0

pub to_good :
    (from_id to_id : ℤ) (ls : List BbLink)
    → whole (record { from = from_id; to = to_id } ∷ ls) ≡ true
    → GoodId to_id
to_good from_id to_id ls h =
    let link : BbLink = record { from = from_id; to = to_id } in
    let (first, rest) = both_true (whole_link link) (whole ls) h in
    is_false _ (both_true (not (eq_ℤ from_id dud_bb_id)) (not (eq_ℤ to_id dud_bb_id)) first).1

pub flat-fresh :
    (g : List BasicBlock) (ys : List Step) → flat (g ++ extend fresh_block ys ∷ []) ≡ flat g ++ ys
flat-fresh g ys = rw (flat-append g (extend fresh_block ys ∷ []), append-nil ys) refl

module _ (before : List Cfg) where
  abbrev pub Builds : Bool → Outline → (Conversion → Run (Bool × Conversion)) → Type 0
  Builds inside shape f =
      (blocks : List BasicBlock) (bb : BasicBlock) (c : Conversion)
      → Named c
      → Gives (Built before Good inside shape (flat (blocks ++ bb ∷ [])) c.pending_links)
          (f (at c before blocks bb))

  abbrev pub BuildsBody : Bool → Outline → (Conversion → Run (ℤ × Conversion)) → Type 0
  BuildsBody inside shape f =
      (blocks : List BasicBlock) (bb : BasicBlock) (c : Conversion)
      → Named c
      → Gives (Built before GoodId inside shape (flat (blocks ++ bb ∷ [])) c.pending_links)
          (f (at c before blocks bb))

  pub failed_Built :
      {shape : Outline} (inside : Bool) (base : List Step) (links : List BbLink)
      (blocks : List BasicBlock) (bb : BasicBlock) (c : Conversion)
      → Named c
      → c.pending_links ≡ links
      → Gives (Built before Good inside shape base links) (done (false, at c before blocks bb))
  failed_Built inside base links blocks bb c named same =
      given (built blocks bb [] named (same ∙ sym (append-nil links)) (λ w good. absurd (cc)))

  pub straight_Built :
      {shape : Outline} (inside ok : Bool) (links : List BbLink) (blocks : List BasicBlock)
      (bb : BasicBlock) (ss : List Step) (c : Conversion)
      → Shaped inside shape ss
      → Named c
      → c.pending_links ≡ links
      → Gives
          (Built before Good inside shape (flat (blocks ++ bb ∷ [])) links)
          (done (ok, at c before blocks (extend bb ss)))
  straight_Built inside ok links blocks bb ss c shaped named same = given (
      built blocks (extend bb ss) [] named (same ∙ sym (append-nil links))
        (λ w good. (ss, flat-extend blocks bb ss, shaped)))
