-- ===== src/Codegen/Layout/Patches.antt =====
-- Patching the breaks of laid out code gives the code with another target.
use minuet_lang_mirror.Base.{
  ℕ, ℤ, pos, ◌+◌, ◌≡◌, refl, ap, some, List, [], ◌∷◌, ◌++◌, length, length-append, get_elem?, set,
  Run, done, fault, ◌>>=◌, arith, wrap16,
}
use mathlib.Core.List.{append_assoc}
use minuet_lang_mirror.Runtime.Bytecode.{Instruction, Chunk}
use minuet_lang_mirror.Codegen.Emitter.Patching.{bare_nop}
use minuet_lang_mirror.Codegen.Emitter.State.{patch_arg_0, patch_arg_1, patch_jumps}
use minuet_lang_mirror.Codegen.Layout.{
  Code, skip, leave, straight, seq, loop, branch, branch_else, layout, breaks, size, check_to,
  jump_to,
}

pub get_elem?-middle {ℓ} :
    {A : Type ℓ} (pre : List A) (x : A) (post : List A)
    → get_elem? (pre ++ x ∷ post) (length pre) ≡ some x
get_elem?-middle [] x post = refl
get_elem?-middle (y ∷ pre) x post = get_elem?-middle pre x post

set-middle {ℓ} :
    {A : Type ℓ} (pre : List A) (x v : A) (post : List A)
    → set (pre ++ x ∷ post) (length pre) v ≡ pre ++ v ∷ post
set-middle [] x v post = refl
set-middle (y ∷ pre) x v post = ap (◌∷◌ y) (set-middle pre x v post)

pub patch_arg_0-middle :
    (value : ℤ) (pre : Chunk) (i : Instruction) (post : Chunk) (ip : ℕ)
    → ip ≡ length pre
    → patch_arg_0 value (pre ++ i ∷ post) (pos ip)
      ≡ done (pre ++ record i { arg_0 = wrap16 value } ∷ post)
unfolding patch_arg_0
patch_arg_0-middle value pre i post ip h =
    rw (h, get_elem?-middle pre i post)
      (rw (set-middle pre i (record i { arg_0 = wrap16 value }) post) refl)

pub patch_arg_1-middle :
    (value : ℤ) (pre : Chunk) (i : Instruction) (post : Chunk) (ip : ℕ)
    → ip ≡ length pre
    → patch_arg_1 value (pre ++ i ∷ post) (pos ip)
      ≡ done (pre ++ record i { arg_1 = wrap16 value } ∷ post)
unfolding patch_arg_1
patch_arg_1-middle value pre i post ip h =
    rw (h, get_elem?-middle pre i post)
      (rw (set-middle pre i (record i { arg_1 = wrap16 value }) post) refl)

bind_step :
    {A B : Type 0} (m : Run A) (f g : A → Run B) (h : B → Run B)
    → ((a : A) → f a ≡ (g a >>= h))
    → (m >>= f) ≡ ((m >>= g) >>= h)
bind_step (done a) f g h e = e a
bind_step (fault x) f g h e = refl

patch_jumps-append :
    (t : ℤ) (a b : List ℤ) (c : Chunk)
    → patch_jumps t (a ++ b) c ≡ (patch_jumps t a c >>= patch_jumps t b)
unfolding patch_jumps
patch_jumps-append t [] b c = refl
patch_jumps-append t (ip ∷ a) b c =
    bind_step (patch_arg_0 t c ip) _ _ _ (λ p. patch_jumps-append t a b p)

-- Wherever the first piece of code stands at `base`, patching turns it into the second.
pub data Patches (t : ℤ) (base : ℕ) (ips : List ℤ) (xs ys : Chunk) : Type 0 where
  patches :
      ((pre post : Chunk)
        → base ≡ length pre
        → patch_jumps t ips (pre ++ (xs ++ post)) ≡ done (pre ++ (ys ++ post)))
      → Patches t base ips xs ys

pub patch_jumps-Patches :
    {t : ℤ} {base : ℕ} {ips : List ℤ} {xs ys : Chunk}
    → Patches t base ips xs ys
    → (pre post : Chunk) → base ≡ length pre
    → patch_jumps t ips (pre ++ (xs ++ post)) ≡ done (pre ++ (ys ++ post))
patch_jumps-Patches (patches p) = p

module _ {t : ℤ} {base : ℕ} where
  unpatched : {xs : Chunk} → Patches t base [] xs xs
  unfolding patch_jumps
  unpatched = patches λ pre post h. refl

  after :
      (xs : Chunk) {n : ℕ} {ips : List ℤ} {ys zs : Chunk}
      → n ≡ base + length xs
      → Patches t n ips ys zs
      → Patches t base ips (xs ++ ys) (xs ++ zs)
  after xs {n} {ips} {ys} {zs} e (patches p) = patches λ pre post h.
      rw
        (
          append_assoc xs ys post,
          append_assoc xs zs post,
          ← append_assoc pre xs (ys ++ post),
          ← append_assoc pre xs (zs ++ post),
        )
        (p (pre ++ xs) post (omega (arith, length-append pre xs)))

  before :
      (zs : Chunk) {ips : List ℤ} {xs ys : Chunk}
      → Patches t base ips xs ys
      → Patches t base ips (xs ++ zs) (ys ++ zs)
  before zs {ips} {xs} {ys} (patches p) =
      patches
        λ pre post h. rw (append_assoc xs zs post, append_assoc ys zs post) (p pre (zs ++ post) h)

  both :
      {a b : List ℤ} {xs ys zs : Chunk}
      → Patches t base a xs ys
      → Patches t base b ys zs
      → Patches t base (a ++ b) xs zs
  both {a} {b} (patches p) (patches q) =
      patches λ pre post h. rw (patch_jumps-append t a b, p pre post h) (q pre post h)

pub length-layout : (k : Code) (t : ℤ) (base : ℕ) → length (layout t base k) ≡ size k
unfolding layout size
length-layout skip t base = refl
length-layout leave t base = refl
length-layout (straight s) t base = refl
length-layout (seq a b) t base = omega (
  arith,
  length-append (layout t base a) (layout t (base + size a) b),
  length-layout a t base,
  length-layout b t (base + size a),
)
length-layout (loop check condition body) t base =
    let end = pos (base + size check + size body + 3) in
    let first = layout (pos 0) (base + 1) check in
    let second = check_to condition end ∷ layout end (base + size check + 2) body in
    let third = jump_to (pos base) ∷ bare_nop ∷ [] in
    omega (
      arith,
      length-append (first ++ second) third,
      length-append first second,
      length-layout check (pos 0) (base + 1),
      length-layout body end (base + size check + 2),
    )
length-layout (branch check condition body) t base =
    let end = pos (base + size check + size body + 1) in
    let first = layout (pos 0) base check in
    let second = check_to condition end ∷ layout t (base + size check + 1) body in
    omega (
      arith,
      length-append (first ++ second) (bare_nop ∷ []),
      length-append first second,
      length-layout check (pos 0) base,
      length-layout body t (base + size check + 1),
    )
length-layout (branch_else check condition body other) t base =
    let alternative = base + size check + size body + 2 in
    let end = pos (alternative + size other + 1) in
    let first = layout (pos 0) base check in
    let second = check_to condition (pos alternative) ∷ layout t (base + size check + 1) body in
    let third = jump_to end ∷ bare_nop ∷ layout t (alternative + 1) other in
    omega (
      arith,
      length-append (first ++ second ++ third) (bare_nop ∷ []),
      length-append (first ++ second) third,
      length-append first second,
      length-layout check (pos 0) base,
      length-layout body t (base + size check + 1),
      length-layout other t (alternative + 1),
    )

pub layout-Patches :
    (k : Code) (t : ℤ) (base : ℕ)
    → Patches t base (breaks base k) (layout (pos 0) base k) (layout t base k)
unfolding layout breaks jump_to patch_jumps
layout-Patches skip t base = unpatched
layout-Patches leave t base =
    patches λ pre post h. rw (patch_arg_0-middle t pre (jump_to (pos 0)) post base h) refl
layout-Patches (straight s) t base = unpatched
layout-Patches (seq a b) t base =
    both (before (layout (pos 0) (base + size a) b) (layout-Patches a t base)) (
      after (layout t base a) (omega (arith, length-layout a t base))
        (layout-Patches b t (base + size a)))
layout-Patches (loop check condition body) t base = unpatched
layout-Patches (branch check condition body) t base =
    let end = pos (base + size check + size body + 1) in
    let first = layout (pos 0) base check in
    before (bare_nop ∷ []) (
      after first {n = base + size check} (omega (arith, length-layout check (pos 0) base)) (
        after (check_to condition end ∷ []) (omega arith)
          (layout-Patches body t (base + size check + 1))))
layout-Patches (branch_else check condition body other) t base =
    let alternative = base + size check + size body + 2 in
    let end = pos (alternative + size other + 1) in
    let first = layout (pos 0) base check in
    let check_jump = check_to condition (pos alternative) in
    let then_part = layout t (base + size check + 1) body in
    let else_part = jump_to end ∷ bare_nop ∷ layout (pos 0) (alternative + 1) other in
    let first_size = length-layout check (pos 0) base in
    let then_size = length-layout body t (base + size check + 1) in
    before (bare_nop ∷ []) (
      both
        (before else_part (
          after first {n = base + size check} (omega arith) (
            after (check_jump ∷ []) (omega arith) (layout-Patches body t (base + size check + 1)))))
        (after (first ++ check_jump ∷ then_part) {n = base + size check + size body + 1}
          (omega (arith, length-append first (check_jump ∷ then_part)))
          (after (jump_to end ∷ bare_nop ∷ []) (omega arith)
            (layout-Patches other t (alternative + 1)))))
