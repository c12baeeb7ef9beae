-- ===== src/Ir/Convert/Wrote.antt =====
-- What the emission of an expression leaves: the newest block with straight steps behind its own.
use minuet_lang_mirror.Base.{
  ◌≡◌, refl, ◌∙◌, Bool, true, false, Option, none, some, List, [], ◌∷◌, ◌++◌, Run, done, fault,
  Fault, overflow, out_of_range, ◌>>=◌, ℕ, length, ltb, Bool-cases, inl, inr,
}
use mathlib.Core.List.{append_assoc, append-nil}
use mathlib.Core.Path.{subst}
use minuet_lang_mirror.Frontend.Lexicals.{Text, Token, token_to_sv, token_length, checked_substr}
use minuet_lang_mirror.Ir.Steps.{Step, AbsAddress}
use minuet_lang_mirror.Ir.Graph.{BasicBlock, Cfg, get_newest_bb}
use minuet_lang_mirror.Ir.Convert.State.{Conversion, BbLink, Names, find, text_eq, add_step}
use minuet_lang_mirror.Codegen.Emitter.Metadata.{mode_of}
use minuet_lang_mirror.Codegen.Layout.{lower, is_some, jumps}
use minuet_lang_mirror.Codegen.Layout.Steps.{back-append, set_back-append}

-- The exceptions of `std::stoi`, `std::stod` and `string_view::substr`.
abbrev pub throws : Fault → Bool
throws overflow = true
throws out_of_range = true
throws e = false

-- A conversion gives a value with the property, or one of the library's exceptions ends it.
pub data Gives {ℓ} {A : Type ℓ} (P : A → Type 0) : Run A → Type ℓ where
  given : {a : A} → P a → Gives P (done a)
  thrown : {e : Fault} → throws e ≡ true → Gives P (fault e)

pub bind_Gives {ℓ κ} :
    {A : Type ℓ} {B : Type κ} {P : A → Type 0} {Q : B → Type 0} {m : Run A} {f : A → Run B}
    → Gives P m
    → ((a : A) → P a → Gives Q (f a))
    → Gives Q (m >>= f)
bind_Gives (given p) next = next _ p
bind_Gives (thrown h) next = thrown h

pub substr-Gives :
    (sv : Text) (start count : ℕ) → Gives (λ t. Unit {0}) (checked_substr sv start count)
unfolding checked_substr
substr-Gives sv start count = elim (Bool-cases (ltb (length sv) start)) [
  | inl e ↦ rw e (thrown refl)
  | inr e ↦ rw e (given tt)
]

pub lexeme-Gives : (t : Token) (source : Text) → Gives (λ t. Unit {0}) (token_to_sv t source)
unfolding token_to_sv
lexeme-Gives t source = substr-Gives source t.start (token_length t)

abbrev pub Tagged : AbsAddress → Type 0
Tagged aa = is_some (mode_of aa.tag) ≡ true

abbrev pub TaggedOpt : Option AbsAddress → Type 0
TaggedOpt none = Unit
TaggedOpt (some aa) = Tagged aa

abbrev pub Always : Bool → Type 0
Always b = Unit

-- Steps that the emitter lowers, and that are no jumps.
abbrev pub Plain : List Step → Type 0
Plain [] = Unit
Plain (s ∷ ss) = ((is_some (lower s) ≡ true) × (jumps s ≡ false)) × Plain ss

pub Plain-append : (xs ys : List Step) → Plain xs → Plain ys → Plain (xs ++ ys)
Plain-append [] ys p q = q
Plain-append (x ∷ xs) ys (h, p) q = (h, Plain-append xs ys p q)

abbrev pub AllTagged : Names → Type 0
AllTagged [] = Unit
AllTagged (entry ∷ entries) = Tagged entry.1 × AllTagged entries

pub find-TaggedOpt : (names : Names) (name : Text) → AllTagged names → TaggedOpt (find names name)
find-TaggedOpt [] name h = tt
find-TaggedOpt (entry ∷ entries) name (here, rest) = elim (Bool-cases (text_eq entry.0 name)) [
  | inl e ↦ rw e here
  | inr e ↦ rw e (find-TaggedOpt entries name rest)
]

pub record Named (c : Conversion) : Type 0 where
  pub in_globals : AllTagged c.globals
  pub in_locals : AllTagged c.locals

abbrev pub extend : BasicBlock → List Step → BasicBlock
extend bb ss = record bb { steps = bb.steps ++ ss }

-- The conversion whose newest graph ends with the block `bb`.
abbrev pub at : Conversion → List Cfg → List BasicBlock → BasicBlock → Conversion
at c before blocks bb = record c { result_cfgs = before ++ (blocks ++ bb ∷ []) ∷ [] }

get_newest_bb-append :
    (blocks : List BasicBlock) (bb : BasicBlock) → get_newest_bb (blocks ++ bb ∷ []) ≡ some bb
unfolding get_newest_bb
get_newest_bb-append [] bb = refl
get_newest_bb-append (x ∷ []) bb = refl
get_newest_bb-append (x ∷ y ∷ ys) bb = get_newest_bb-append (y ∷ ys) bb

module _ (before : List Cfg) (blocks : List BasicBlock) where
  pub add_step-at :
      (s : Step) (c : Conversion) (bb : BasicBlock)
      → add_step s (at c before blocks bb) ≡ done (at c before blocks (extend bb (s ∷ [])))
  unfolding add_step
  add_step-at s c bb =
      let g = blocks ++ bb ∷ [] in
      let g' = blocks ++ extend bb (s ∷ []) ∷ [] in
      rw
        (
          back-append before g,
          get_newest_bb-append blocks bb,
          set_back-append blocks bb (extend bb (s ∷ [])),
          set_back-append before g g',
        )
        refl

  -- From `bb` on: the steps are plain, the value and all names have addresses that an instruction
  -- can hold, and the links wait as they did.
  pub data Wrote {X : Type 0} (T : X → Type 0) (links : List BbLink) (bb : BasicBlock)
      : X × Conversion → Type 0 where
    wrote :
        {x : X} {c : Conversion} (ss : List Step)
        → T x
        → Plain ss
        → Named c
        → c.pending_links ≡ links
        → Wrote T links bb (x, at c before blocks (extend bb ss))

  pub joined :
      {X : Type 0} {T : X → Type 0} {links links' : List BbLink} {bb : BasicBlock} (ss : List Step)
      {p : X × Conversion}
      → Plain ss
      → links' ≡ links
      → Wrote T links' (extend bb ss) p
      → Wrote T links bb p
  joined {bb = bb} ss plain same (wrote {x = x} {c = c} ts t more named still) =
      rw (append_assoc bb.steps ss ts)
        (wrote (ss ++ ts) t (Plain-append ss ts plain more) named (still ∙ same))

module _ (before : List Cfg) (blocks : List BasicBlock) where
  map_joined :
      {X : Type 0} {T : X → Type 0} {links links' : List BbLink} {bb : BasicBlock} (ss : List Step)
      {m : Run (X × Conversion)}
      → Plain ss
      → links' ≡ links
      → Gives (Wrote before blocks T links' (extend bb ss)) m
      → Gives (Wrote before blocks T links bb) m
  map_joined ss plain same (given w) = given (joined before blocks ss plain same w)
  map_joined ss plain same (thrown h) = thrown h

  -- The rest of the code starts from what its first part has written.
  pub then_Wrote :
      {X Y : Type 0} {T : X → Type 0} {U : Y → Type 0} {links : List BbLink} {bb : BasicBlock}
      {m : Run (X × Conversion)} (f : X × Conversion → Run (Y × Conversion))
      → Gives (Wrote before blocks T links bb) m
      → ((x : X) (c : Conversion) (bb' : BasicBlock)
          → T x
          → Named c
          → Gives (Wrote before blocks U c.pending_links bb') (f (x, at c before blocks bb')))
      → Gives (Wrote before blocks U links bb) (m >>= f)
  then_Wrote f (given (wrote ss t plain named same)) next =
      map_joined ss plain same (next _ _ _ t named)
  then_Wrote f (thrown h) next = thrown h

  pub step_Wrote :
      {Y : Type 0} {U : Y → Type 0} (s : Step) (c : Conversion) (bb : BasicBlock)
      (f : Conversion → Run (Y × Conversion))
      → is_some (lower s) ≡ true
      → jumps s ≡ false
      → ((bb' : BasicBlock)
          → Gives (Wrote before blocks U c.pending_links bb') (f (at c before blocks bb')))
      → Gives (Wrote before blocks U c.pending_links bb) (add_step s (at c before blocks bb) >>= f)
  step_Wrote s c bb f lowers flat next =
      rw (add_step-at before blocks s c bb)
        (map_joined (s ∷ []) ((lowers, flat), tt) refl (next (extend bb (s ∷ []))))

  pub unchanged :
      {X : Type 0} {T : X → Type 0} (x : X) (c : Conversion) (bb : BasicBlock)
      → T x
      → Named c
      → Gives (Wrote before blocks T c.pending_links bb) (done (x, at c before blocks bb))
  unchanged {T = T} x c bb t named =
      let same : extend bb [] ≡ bb = rw (append-nil bb.steps) refl in
      subst (λ b. Gives (Wrote before blocks T c.pending_links bb) (done (x, at c before blocks b)))
        same (given (wrote [] t tt named refl))
