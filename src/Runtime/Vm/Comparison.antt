-- ===== src/Runtime/Vm/Comparison.antt =====
-- The six comparison handlers of src/runtime/vm.cpp.
use minuet_lang_mirror.Base.{ℕ, ℤ, Bool, not, Run, done, ◌>>=◌}
use minuet_lang_mirror.Runtime.Values.{FastValue, boolean}
use minuet_lang_mirror.Runtime.HeapStorage.{HeapStorage}
use minuet_lang_mirror.Runtime.FastValue.Compare
use minuet_lang_mirror.Runtime.Vm.Engine.{Engine, Machine, finish_with}
use minuet_lang_mirror.Runtime.Vm.Arithmetic.{value, fetch_pair}

-- The result of a comparison goes to a register as a Boolean.
unfoldable pub compare_op :
    (ℕ → HeapStorage → FastValue → FastValue → Run Bool)
    → Machine
    → Engine
    → ℕ
    → ℤ
    → ℤ
    → ℤ
    → Run Engine
unfolding fetch_pair finish_with
compare_op op m e metadata dest lhs rhs = do
  (lhs_opt, rhs_opt) ← fetch_pair m e metadata lhs rhs
  self ← value lhs_opt
  arg ← value rhs_opt
  b ← op m.depth e.heap self arg
  finish_with e dest (boolean b)

abbrev pub negated : Run Bool → Run Bool
negated r = r >>= λ b. done (not b)

module _ (m : Machine) (e : Engine) (metadata : ℕ) (dest lhs rhs : ℤ) where
  unfoldable pub handle_cmp_eq : Run Engine
  unfolding compare_op Compare.equal
  handle_cmp_eq = compare_op (Compare.equal m.doubles) m e metadata dest lhs rhs

  -- `!=` is the negation of `operator==`.
  unfoldable pub handle_cmp_ne : Run Engine
  unfolding compare_op Compare.equal
  handle_cmp_ne =
      compare_op (λ n h a b. negated (Compare.equal m.doubles n h a b)) m e metadata dest lhs rhs

  unfoldable pub handle_cmp_lt : Run Engine
  unfolding compare_op Compare.less
  handle_cmp_lt = compare_op (Compare.less m.doubles) m e metadata dest lhs rhs

  unfoldable pub handle_cmp_gt : Run Engine
  unfolding compare_op Compare.greater
  handle_cmp_gt = compare_op (Compare.greater m.doubles) m e metadata dest lhs rhs

  unfoldable pub handle_cmp_gte : Run Engine
  unfolding compare_op Compare.at_least
  handle_cmp_gte = compare_op (Compare.at_least m.doubles) m e metadata dest lhs rhs

  unfoldable pub handle_cmp_lte : Run Engine
  unfolding compare_op Compare.at_most
  handle_cmp_lte = compare_op (Compare.at_most m.doubles) m e metadata dest lhs rhs
