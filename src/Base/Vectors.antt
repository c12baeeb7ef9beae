-- ===== src/Base/Vectors.antt =====
-- The laws of a vector's `operator[]`: a read after a write, and the size.
use Prim.Native.Nat.{ℕ}
use mathlib.Core.Path.{◌≡◌, refl, sym, ap, ◌∙◌}
use mathlib.Core.Logic.{◌≢◌, inl, inr}
use mathlib.Core.Option.{some}
use mathlib.Core.List.{List, [], ◌∷◌}
use native.Mathlib.Omega.{arith}
use minuet_lang_mirror.Base.Int.{ℤ, pos, negsuc}
use minuet_lang_mirror.Base.Lists.{
  length, get_elem?, set, length-set, get_elem?-set_self, get_elem?-set_ne, lt_of_get_elem?,
}
use minuet_lang_mirror.Base.Outcome.{
  done, fault, read_at, write_at, write_in, from_option, bad_index,
}
use minuet_lang_mirror.Base.Tests.{Option-cases}
use Prim.Native.Nat.{zero, suc}

module _ {ℓ} {A : Type ℓ} where
  -- `ys` is `xs` with `v` at index `i`.
  pub record Written (xs : List A) (i : ℤ) (v : A) (ys : List A) : Type ℓ where
    pub now : read_at ys i ≡ done v
    pub others : (j : ℤ) → j ≢ i → read_at ys j ≡ read_at xs j
    pub size : length ys ≡ length xs

  set-Written :
      (xs : List A) (i : ℕ) (v old : A)
      → get_elem? xs i ≡ some old
      → Written xs (pos i) v (set xs i v)
  set-Written xs i v old e = record {
    now = ap (from_option bad_index) (get_elem?-set_self xs i v (lt_of_get_elem? xs i e));
    others = others;
    size = length-set xs i v;
  }
    where
      others : (j : ℤ) → j ≢ pos i → read_at (set xs i v) j ≡ read_at xs j
      others (negsuc j) ne = refl
      others (pos j) ne =
          ap (from_option bad_index) (get_elem?-set_ne xs i j v (λ x. ne (ap pos (sym x))))

  get_elem?-read_at :
      (xs : List A) (i : ℕ) {v : A} → read_at xs (pos i) ≡ done v → get_elem? xs i ≡ some v
  get_elem?-read_at xs i e = ground arith

  -- Where a read succeeds, a write does.
  pub write_at-Written :
      (xs : List A) (i : ℤ) (v : A) {old : A}
      → read_at xs i ≡ done old
      → (ys : List A) × (write_at xs i v ≡ done ys) × Written xs i v ys
  write_at-Written xs (negsuc i) v e = absurd (cc)
  write_at-Written xs (pos i) v {old} e =
      let there = get_elem?-read_at xs i e in
      (set xs i v, ap (write_in xs i v) there, set-Written xs i v old there)

  -- A write that succeeds is one.
  pub Written-write_at :
      (xs : List A) (i : ℤ) (v : A) {ys : List A} → write_at xs i v ≡ done ys → Written xs i v ys
  Written-write_at xs (negsuc i) v e = absurd (cc)
  Written-write_at xs (pos i) v {ys} e = elim (Option-cases (get_elem? xs i)) [
    | inl missing ↦ absurd (ground (arith, missing))
    | inr (old, there) ↦
        let same : set xs i v ≡ ys = ground (arith, there) in
        rw (← same) (set-Written xs i v old there)
  ]

  pub set_same : (xs : List A) (i : ℕ) {v : A} → get_elem? xs i ≡ some v → set xs i v ≡ xs
  set_same [] i e = refl
  set_same (x ∷ xs) zero {v} e = ground arith
  set_same (x ∷ xs) (suc i) e = ap (◌∷◌ x) (set_same xs i e)

  -- Writing what is there changes nothing.
  pub write_at_same :
      (xs : List A) (i : ℤ) {v : A} → read_at xs i ≡ done v → write_at xs i v ≡ done xs
  write_at_same xs (negsuc i) e = absurd (cc)
  write_at_same xs (pos i) {v} e =
      let there = get_elem?-read_at xs i e in
      ap (write_in xs i v) there ∙ ap done (set_same xs i there)

  -- Where a read fails, a write does.
  pub write_at_fault :
      (xs : List A) (i : ℤ) (v : A)
      → read_at xs i ≡ fault bad_index
      → write_at xs i v ≡ fault bad_index
  write_at_fault xs (negsuc i) v e = refl
  write_at_fault xs (pos i) v e = ground arith
