-- ===== src/Ir/Convert/Pool.antt =====
-- The constant pool of the converter: one entry for each lexeme.
use minuet_lang_mirror.Base.{
  pos, ◌<◌, ◌≡◌, refl, true, none, [], ◌∷◌, ◌++◌, length, done, read_at, wrap16, wrap16_fits, ◌==◌,
  arith,
}
use minuet_lang_mirror.Frontend.Lexicals.{Text}
use minuet_lang_mirror.Ir.Steps.{AbsAddress, AbsAddrTag}
use minuet_lang_mirror.Runtime.Values.{FastValue}
use minuet_lang_mirror.Ir.Convert.State.{Conversion, find, text_eq, resolve_constant_aa}
use minuet_lang_mirror.Codegen.Layout.Patches.{get_elem?-middle}

text_eq_refl : (t : Text) → text_eq t t ≡ true
text_eq_refl [] = refl
text_eq_refl (x ∷ xs) = let same : (x == x) ≡ true = ground arith in rw (same, text_eq_refl xs) refl

-- A lexeme that no global has gets the next place of the pool, which fits 16 bits: the pool is extended by the value, and reading it at the address gives the value. From then on the lexeme has that address, and resolving it again, with any value, gives the same address and changes nothing.
pub resolve_constant_aa-new :
    (lexeme : Text) (value other : FastValue) (c : Conversion)
    → find c.globals lexeme ≡ none
    → length c.proto_consts < 32768
    → (aa : AbsAddress) × (c' : Conversion) × (resolve_constant_aa lexeme value c ≡ (aa, c'))
      × (aa.tag ≡ AbsAddrTag.constant)
      × (c'.proto_consts ≡ c.proto_consts ++ value ∷ [])
      × (read_at c'.proto_consts aa.id ≡ done value)
      × (resolve_constant_aa lexeme other c' ≡ (aa, c'))
unfolding resolve_constant_aa
resolve_constant_aa-new lexeme value other c missing small =
    let n = length c.proto_consts in
    let aa : AbsAddress = record { tag = AbsAddrTag.constant; id = wrap16 (pos n) } in
    let c' : Conversion = record c {
      proto_consts = c.proto_consts ++ value ∷ [];
      globals = (lexeme, aa) ∷ c.globals;
    } in
    (
      aa,
      c',
      rw missing refl,
      refl,
      refl,
      rw (wrap16_fits n small) (rw (get_elem?-middle c.proto_consts value []) refl),
      rw (text_eq_refl lexeme) refl,
    )
