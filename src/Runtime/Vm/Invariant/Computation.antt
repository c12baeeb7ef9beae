-- ===== src/Runtime/Vm/Invariant/Computation.antt =====
-- The invariant of the engine and the handlers of src/runtime/vm.cpp that compute.
use minuet_lang_mirror.Base.{ℕ, ℤ, Bool, Option, none, some, Run, not}
use minuet_lang_mirror.Base.Ensures
use minuet_lang_mirror.Base.Ensures.{Ensures, returned, faulted}
use minuet_lang_mirror.Runtime.Values.{FastValue, boolean, is_val_ref, is_none}
use minuet_lang_mirror.Runtime.HeapStorage.{HeapStorage}
use minuet_lang_mirror.Runtime.HeapStorage.Invariant.{IsValid}
use minuet_lang_mirror.Runtime.FastValue
use minuet_lang_mirror.Runtime.FastValue.{times_values, plus_values, minus_values}
use minuet_lang_mirror.Runtime.FastValue.Assign.{times_assign, plus_assign, minus_assign}
use minuet_lang_mirror.Runtime.FastValue.Compare
use minuet_lang_mirror.Runtime.FastValue.Preserved.{
  write_through-Ensures, negate-Ensures, emplace_other-Ensures,
}
use minuet_lang_mirror.Runtime.Bytecode.{mode_1}
use minuet_lang_mirror.Runtime.Vm.Engine.{
  Engine, Machine, mem_error, arg_error, math_error, read_reg, fetch_value, raise_top,
}
use minuet_lang_mirror.Runtime.Vm.Arithmetic.{
  value, move_through, move_fetched, handle_mov, handle_neg, fetch_pair, assign_op, checked_op,
  handle_mul, handle_div, handle_mod, handle_add, handle_sub,
}
use minuet_lang_mirror.Runtime.Vm.Comparison.{
  compare_op, negated, handle_cmp_eq, handle_cmp_ne, handle_cmp_lt, handle_cmp_gt, handle_cmp_gte,
  handle_cmp_lte,
}
use minuet_lang_mirror.Runtime.Vm.Invariant.{
  IsSound, Sound, with_heap, next_ip-IsSound, raise_top-IsSound, write_reg-Sound, finish_with-Sound,
}
use minuet_lang_mirror.Runtime.Vm.Invariant.Handlers.{fail_with-Sound}

module _ {registers frames : ℕ} (e : Engine) (s : IsSound registers frames e) (m : Machine) where
  move_through-Sound :
      (dest : ℤ) (dest_ref v : FastValue)
      → Sound registers frames (move_through m e dest dest_ref v)
  unfolding move_through
  move_through-Sound dest dest_ref v =
      Ensures.bind (emplace_other-Ensures m.depth e.heap dest_ref v s.heap_valid) λ x valid.
        Ensures.bind (write_reg-Sound (record e { heap = x.2 }) dest x.1 (with_heap e x.2 s valid))
          λ e' s'.
            Ensures.if_Ensures x.0 (returned (raise_top-IsSound e' dest s'))
              (fail_with-Sound e' s' mem_error)

  move_fetched-Sound :
      (dest : ℤ) (v : Option FastValue) → Sound registers frames (move_fetched m e dest v)
  unfolding move_fetched
  move_fetched-Sound dest none = fail_with-Sound e s mem_error
  move_fetched-Sound dest (some v) = Ensures.after (read_reg e dest) λ dest_ref.
      Ensures.if_Ensures (is_val_ref dest_ref) (move_through-Sound dest dest_ref v)
        (finish_with-Sound e dest v s)

  pub handle_mov-Sound :
      (metadata : ℕ) (dest src : ℤ) → Sound registers frames (handle_mov m e metadata dest src)
  unfolding handle_mov
  handle_mov-Sound metadata dest src =
      Ensures.after (fetch_value m.program e (mode_1 metadata) src) λ v. move_fetched-Sound dest v

  pub handle_neg-Sound : (dest : ℤ) → Sound registers frames (handle_neg m e dest)
  unfolding handle_neg
  handle_neg-Sound dest = Ensures.after (read_reg e dest) λ v.
      Ensures.bind (negate-Ensures m.depth e.heap v s.heap_valid) λ x valid.
        Ensures.bind (write_reg-Sound (record e { heap = x.2 }) dest x.1 (with_heap e x.2 s valid))
          λ e' s'.
            Ensures.if_Ensures x.0
              (fail_with-Sound (raise_top e' dest)
                (record {
                  heap_valid = s'.heap_valid;
                  registers_kept = s'.registers_kept;
                  frames_kept = s'.frames_kept;
                })
                arg_error)
              (returned (next_ip-IsSound e' s'))

  -- An operator that gives a valid heap back.
  abbrev Preserves :
      (ℕ → HeapStorage → FastValue → FastValue → Run (FastValue × HeapStorage)) → Type 0
  Preserves op =
      (n : ℕ) (h : HeapStorage) (self arg : FastValue)
      → IsValid h
      → Ensures (λ x. IsValid x.1) (op n h self arg)

  module _ (metadata : ℕ) (dest lhs rhs : ℤ) where
    assign_op-Sound :
        (op : ℕ → HeapStorage → FastValue → FastValue → Run (FastValue × HeapStorage))
        → Preserves op
        → Sound registers frames (assign_op op m e metadata dest lhs rhs)
    unfolding assign_op
    assign_op-Sound op keep = Ensures.after (fetch_pair m e metadata lhs rhs) λ x.
        Ensures.after (value x.0) λ self. Ensures.bind (write_reg-Sound e dest self s) λ e' s'.
          Ensures.after (value x.1) λ arg.
            Ensures.bind (keep m.depth e'.heap self arg s'.heap_valid) λ y valid.
              Ensures.bind
                (write_reg-Sound (record e' { heap = y.1 }) dest y.0 (with_heap e' y.1 s' valid))
                λ e'' s''. returned (raise_top-IsSound e'' dest s'')

    checked_op-Sound :
        (op : ℕ → HeapStorage → FastValue → FastValue → Run FastValue)
        → Sound registers frames (checked_op op m e metadata dest lhs rhs)
    unfolding checked_op
    checked_op-Sound op = Ensures.after (fetch_pair m e metadata lhs rhs) λ x.
        Ensures.after (value x.0) λ self. Ensures.after (value x.1) λ arg.
          Ensures.after (op m.depth e.heap self arg) λ temp.
            Ensures.if_Ensures (not (is_none temp)) (finish_with-Sound e dest temp s)
              (fail_with-Sound e s math_error)

    compare_op-Sound :
        (op : ℕ → HeapStorage → FastValue → FastValue → Run Bool)
        → Sound registers frames (compare_op op m e metadata dest lhs rhs)
    unfolding compare_op
    compare_op-Sound op = Ensures.after (fetch_pair m e metadata lhs rhs) λ x.
        Ensures.after (value x.0) λ self. Ensures.after (value x.1) λ arg.
          Ensures.after (op m.depth e.heap self arg) λ b. finish_with-Sound e dest (boolean b) s

    pub handle_mul-Sound : Sound registers frames (handle_mul m e metadata dest lhs rhs)
    unfolding handle_mul times_assign
    handle_mul-Sound =
        assign_op-Sound (times_assign m.doubles)
          λ n h self arg. write_through-Ensures (λ v. times_values m.doubles v arg) n h self

    pub handle_add-Sound : Sound registers frames (handle_add m e metadata dest lhs rhs)
    unfolding handle_add plus_assign
    handle_add-Sound =
        assign_op-Sound (plus_assign m.doubles)
          λ n h self arg. write_through-Ensures (λ v. plus_values m.doubles v arg) n h self

    pub handle_sub-Sound : Sound registers frames (handle_sub m e metadata dest lhs rhs)
    unfolding handle_sub minus_assign
    handle_sub-Sound =
        assign_op-Sound (minus_assign m.doubles)
          λ n h self arg. write_through-Ensures (λ v. minus_values m.doubles v arg) n h self

    pub handle_div-Sound : Sound registers frames (handle_div m e metadata dest lhs rhs)
    unfolding handle_div
    handle_div-Sound = checked_op-Sound (FastValue.divide m.doubles)

    pub handle_mod-Sound : Sound registers frames (handle_mod m e metadata dest lhs rhs)
    unfolding handle_mod
    handle_mod-Sound = checked_op-Sound (FastValue.modulo m.doubles)

    pub handle_cmp_eq-Sound : Sound registers frames (handle_cmp_eq m e metadata dest lhs rhs)
    unfolding handle_cmp_eq
    handle_cmp_eq-Sound = compare_op-Sound (Compare.equal m.doubles)

    pub handle_cmp_ne-Sound : Sound registers frames (handle_cmp_ne m e metadata dest lhs rhs)
    unfolding handle_cmp_ne
    handle_cmp_ne-Sound = compare_op-Sound (λ n h a b. negated (Compare.equal m.doubles n h a b))

    pub handle_cmp_lt-Sound : Sound registers frames (handle_cmp_lt m e metadata dest lhs rhs)
    unfolding handle_cmp_lt
    handle_cmp_lt-Sound = compare_op-Sound (Compare.less m.doubles)

    pub handle_cmp_gt-Sound : Sound registers frames (handle_cmp_gt m e metadata dest lhs rhs)
    unfolding handle_cmp_gt
    handle_cmp_gt-Sound = compare_op-Sound (Compare.greater m.doubles)

    pub handle_cmp_gte-Sound : Sound registers frames (handle_cmp_gte m e metadata dest lhs rhs)
    unfolding handle_cmp_gte
    handle_cmp_gte-Sound = compare_op-Sound (Compare.at_least m.doubles)

    pub handle_cmp_lte-Sound : Sound registers frames (handle_cmp_lte m e metadata dest lhs rhs)
    unfolding handle_cmp_lte
    handle_cmp_lte-Sound = compare_op-Sound (Compare.at_most m.doubles)
