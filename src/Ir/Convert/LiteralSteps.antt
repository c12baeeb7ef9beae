-- ===== src/Ir/Convert/LiteralSteps.antt =====
-- Literals and names write at most one step into the newest block.
use minuet_lang_mirror.Base.{
  ℕ, ℤ, pos, refl, Bool, true, false, Option, none, some, List, [], ◌∷◌, Run, done, if◌then◌else◌,
  Bool-cases, inl, inr, ◌&&◌, fits_int32, map, ◌==◌, ◌-ℤ◌,
}
use minuet_lang_mirror.Frontend.Lexicals.{Text, Token, TokenType}
use minuet_lang_mirror.Ir.Steps.{Op, AbsAddress, oper_binary}
use minuet_lang_mirror.Ir.Graph.{BasicBlock, Cfg}
use minuet_lang_mirror.Runtime.Values.{FastValue, string_value}
use minuet_lang_mirror.Runtime.Objects.Text.{of_chars}
use minuet_lang_mirror.Ir.Convert.State.{
  Conversion, find, report_error, gen_temp_aa, resolve_constant_aa, resolve_heap_obj_aa,
  resolve_found, lookup_name_aa, lookup_in,
}
use minuet_lang_mirror.Ir.Convert.Literals.{
  char_of, digits, starts_digit, stoi, in_range, emit_string, emit_lexeme, emit_literal, resolved,
}
use minuet_lang_mirror.Ir.Convert.Wrote.{
  Gives, given, thrown, bind_Gives, TaggedOpt, Named, at, Wrote, step_Wrote, unchanged,
  find-TaggedOpt, lexeme-Gives,
}
use minuet_lang_mirror.Ir.Convert.Lowering.{two_lowers}

module _ (before : List Cfg) (blocks : List BasicBlock) where
  -- The emission of an expression, from any block.
  abbrev pub Writes : {X : Type 0} → (X → Type 0) → (Conversion → Run (X × Conversion)) → Type 0
  Writes T f =
      (c : Conversion) (bb : BasicBlock)
      → Named c
      → Gives (Wrote before blocks T c.pending_links bb) (f (at c before blocks bb))

  found_Writes :
      (lexeme : Text) (v : FastValue) (c : Conversion) (bb : BasicBlock) (o : Option AbsAddress)
      → TaggedOpt o
      → Named c
      → Gives
          (Wrote before blocks TaggedOpt c.pending_links bb)
          (let (aa, c') = resolve_found lexeme v (at c before blocks bb) o in done (some aa, c'))
  found_Writes lexeme v c bb (some aa) t named = unchanged before blocks (some aa) c bb t named
  found_Writes lexeme v c bb none t named =
      let (aa, c') = resolve_found lexeme v c none in
      unchanged before blocks (some aa) c' bb refl
        (record { in_globals = (refl, named.in_globals); in_locals = named.in_locals })

  resolved-Writes : (lexeme : Text) (v : FastValue) → Writes TaggedOpt (resolved lexeme v)
  unfolding resolve_constant_aa
  resolved-Writes lexeme v c bb named =
      found_Writes lexeme v c bb (find c.globals lexeme)
        (find-TaggedOpt c.globals lexeme named.in_globals) named

  string_Writes : (text : Text) → Writes TaggedOpt (emit_string text)
  unfolding emit_string gen_temp_aa resolve_heap_obj_aa
  string_Writes text c bb named =
      let (dest_aa, c1) = gen_temp_aa c in
      let (str_aa, c2) = resolve_heap_obj_aa (string_value (of_chars (map char_of text))) c1 in
      let named2 : Named c2 = record {
        in_globals = named.in_globals;
        in_locals = named.in_locals;
      } in
      step_Wrote before blocks
        (oper_binary (record { arg_0 = dest_aa; arg_1 = str_aa; op = Op.make_str })) c2 bb _
        (two_lowers dest_aa str_aa Op.make_str refl refl refl) refl
        (λ bb'. unchanged before blocks (some dest_aa) c2 bb' refl named2)

  in_range-Gives : (b : Bool) (n : ℤ) → Gives (λ n. Unit {0}) (in_range b n)
  in_range-Gives b n = elim (Bool-cases (b && fits_int32 n)) [
    | inl e ↦ rw e (given tt)
    | inr e ↦ rw e (thrown refl)
  ]

  if_Gives :
      {A : Type 0} {P : A → Type 0} (b : Bool) {m n : Run A}
      → Gives P m
      → Gives P n
      → Gives P (if b then m else n)
  if_Gives true p q = p
  if_Gives false p q = q

  stoi-Gives : (lexeme : Text) → Gives (λ n. Unit {0}) (stoi lexeme)
  unfolding stoi
  stoi-Gives [] = thrown refl
  stoi-Gives (b ∷ bs) =
      if_Gives (b == 45) (in_range-Gives (starts_digit bs) (pos 0 -ℤ pos (digits bs 0))) (
        if_Gives (b == 43) (in_range-Gives (starts_digit bs) (pos (digits bs 0)))
          (in_range-Gives (starts_digit (b ∷ bs)) (pos (digits (b ∷ bs) 0))))

  lookup-TaggedOpt :
      (c : Conversion) (name : Text) (o : Option ℤ) (g : Option AbsAddress)
      → Named c
      → TaggedOpt g
      → TaggedOpt (lookup_in c name o g)
  lookup-TaggedOpt c name (some id) g named t = refl
  lookup-TaggedOpt c name none (some aa) named t = t
  lookup-TaggedOpt c name none none named t = find-TaggedOpt c.locals name named.in_locals

  module _ (stod : Text → Run ℕ) (stod_ok : (t : Text) → Gives (λ d. Unit {0}) (stod t)) where
    lexeme_Writes :
        (tag : TokenType) (lexeme : Text) → Writes TaggedOpt (emit_lexeme stod tag lexeme)
    unfolding emit_lexeme lookup_name_aa report_error
    lexeme_Writes TokenType.literal_false lexeme c bb named = resolved-Writes lexeme _ c bb named
    lexeme_Writes TokenType.literal_true lexeme c bb named = resolved-Writes lexeme _ c bb named
    lexeme_Writes TokenType.literal_char lexeme c bb named = resolved-Writes lexeme _ c bb named
    lexeme_Writes TokenType.literal_int lexeme c bb named =
        bind_Gives (stoi-Gives lexeme) (λ n h. resolved-Writes lexeme _ c bb named)
    lexeme_Writes TokenType.literal_double lexeme c bb named =
        bind_Gives (stod_ok lexeme) (λ d h. resolved-Writes lexeme _ c bb named)
    lexeme_Writes TokenType.literal_string lexeme c bb named = string_Writes lexeme c bb named
    lexeme_Writes TokenType.identifier lexeme c bb named =
        unchanged before blocks (lookup_name_aa lexeme c) c bb
          (lookup-TaggedOpt c lexeme (find c.native_proc_ids lexeme) (find c.globals lexeme) named
            (find-TaggedOpt c.globals lexeme named.in_globals))
          named
    lexeme_Writes tag lexeme c bb named =
        unchanged before blocks none (report_error c) bb tt
          (record { in_globals = named.in_globals; in_locals = named.in_locals })

    pub literal_Writes :
        (source : Text) (token : Token) → Writes TaggedOpt (emit_literal stod source token)
    unfolding emit_literal
    literal_Writes source token c bb named =
        bind_Gives (lexeme-Gives token source)
          (λ lexeme h. lexeme_Writes token.type lexeme c bb named)
