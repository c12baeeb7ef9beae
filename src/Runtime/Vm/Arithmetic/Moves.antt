-- ===== src/Runtime/Vm/Arithmetic/Moves.antt =====
-- What the handlers of src/runtime/vm.cpp do with a register that holds a reference to an item, and
-- `handle_neg`.
use minuet_lang_mirror.Base.{
  ℕ, suc, ◌≡◌, refl, ◌≢◌, ℤ, ◌+ℤ◌, ◌-ℤ◌, ◌*ℤ◌, fits_int32, Bool, true, false, not, some, List,
  arith, Run, done, Written, write_at-Written, write_at_same,
}
use minuet_lang_mirror.Runtime.Values.{Ref, FastValue, boolean, int32, val_ref, is_val_ref}
use minuet_lang_mirror.Runtime.HeapStorage.{HeapStorage, deref}
use minuet_lang_mirror.Runtime.FastValue.{times_values, plus_values, minus_values}
use minuet_lang_mirror.Runtime.FastValue.Assign.{
  write_through, times_assign, plus_assign, minus_assign, negate, emplace_other,
}
use minuet_lang_mirror.Runtime.FastValue.Aliasing.{write_through-Assigned, emplace_other-Assigned}
use minuet_lang_mirror.Runtime.Vm.Engine.{
  Engine, Machine, arg_error, next_ip, fail_with, raise_top, read_reg, write_reg, fetch_value,
}
use minuet_lang_mirror.Runtime.Bytecode.{mode_1, mode_2}
use minuet_lang_mirror.Runtime.Vm.Arithmetic.{
  fetch_pair, assign_op, handle_mul, handle_add, handle_sub, handle_neg, handle_mov, move_fetched,
  move_through,
}

-- A register that can be read can be written, twice too.
write_reg-Written :
    (e : Engine) (id : ℤ) (v : FastValue) {old : FastValue}
    → read_reg e id ≡ done old
    → (ys : List FastValue) × (write_reg e id v ≡ done (record e { memory = ys }))
      × Written e.memory (e.rbp +ℤ id) v ys
unfolding read_reg write_reg
write_reg-Written e id v readable =
    let (ys, stored, w) = write_at-Written e.memory (e.rbp +ℤ id) v readable in (ys, rw stored, w)

-- The engine behind an instruction: the item behind `r` has the value `w`, the other items are what
-- they were, and the destination register holds the reference.
pub record ItemChanged (e : Engine) (dest : ℤ) (r : Ref) (w : FastValue) (e' : Engine)
    : Type 0 where
  pub item_changed : deref e'.heap r ≡ done w
  pub other_items : (q : Ref) → q ≢ r → deref e'.heap q ≡ deref e.heap q
  pub register_is : read_reg e' dest ≡ done (val_ref r)

module _ (m : Machine) (n : ℕ) (deep : m.depth ≡ suc (suc n)) (e : Engine) (metadata : ℕ)
    (dest lhs rhs : ℤ) {old arg t : FastValue} {r : Ref}
    (left : fetch_value m.program e (mode_1 metadata) lhs ≡ done (some (val_ref r)))
    (right : fetch_value m.program e (mode_2 metadata) rhs ≡ done (some arg))
    (room : read_reg e dest ≡ done old) (item_is : deref e.heap r ≡ done t)
    (plain : is_val_ref t ≡ false) where
  assign_op-ItemChanged :
      (op : FastValue → FastValue → Run FastValue) (w : FastValue)
      → op t arg ≡ done w
      → (e' : Engine) × (assign_op
            (λ k h self a. write_through (λ v. op v a) k h self)
            m
            e
            metadata
            dest
            lhs
            rhs
          ≡ done e')
        × ItemChanged e dest r w e'
  unfolding assign_op fetch_pair
  assign_op-ItemChanged op w made =
      let (ys, stored, first) = write_reg-Written e dest (val_ref r) room in
      let (h, changed, a) = write_through-Assigned (λ v. op v arg) n e.heap r item_is plain made in
      let mid : Engine = record e { memory = ys; heap = h } in
      let (zs, stored', second) =
        write_reg-Written mid dest (val_ref r) (unfold read_reg in first.now) in
      (
        next_ip (raise_top (record mid { memory = zs }) dest),
        rw (left, right, stored, deep, changed, stored'),
        record {
          item_changed = a.now;
          other_items = a.others;
          register_is = unfold read_reg in second.now;
        },
      )

-- The instructions `mul`, `add` and `sub`, and their results on integers.
pub data Arithmetic : Type 0 where
  by_mul by_add by_sub : Arithmetic

abbrev pub handler_of : Arithmetic → Machine → Engine → ℕ → ℤ → ℤ → ℤ → Run Engine
handler_of by_mul = handle_mul
handler_of by_add = handle_add
handler_of by_sub = handle_sub

abbrev pub result_of : Arithmetic → ℤ → ℤ → ℤ
result_of by_mul a b = a *ℤ b
result_of by_add a b = a +ℤ b
result_of by_sub a b = a -ℤ b

module _ (m : Machine) (n : ℕ) (deep : m.depth ≡ suc (suc n)) (e : Engine) (metadata : ℕ)
    (dest lhs rhs a b : ℤ) {old : FastValue} {r : Ref}
    (left : fetch_value m.program e (mode_1 metadata) lhs ≡ done (some (val_ref r)))
    (right : fetch_value m.program e (mode_2 metadata) rhs ≡ done (some (int32 b)))
    (room : read_reg e dest ≡ done old) (item_is : deref e.heap r ≡ done (int32 a)) where
  -- Where the left operand refers to the integer item `a`, the right one is the integer `b`, the destination register can be read, and the result of the one instruction that is run fits an `int`, each of `mul`, `add` and `sub` writes its product, sum or difference over the item, leaves the other items alone, and puts the reference in the destination register.
  pub arithmetic-ItemChanged :
      (op : Arithmetic)
      → fits_int32 (result_of op a b) ≡ true
      → (e' : Engine) × (handler_of op m e metadata dest lhs rhs ≡ done e')
        × ItemChanged e dest r (int32 (result_of op a b)) e'
  unfolding times_assign plus_assign minus_assign handle_mul handle_add handle_sub times_values
      plus_values minus_values
  arithmetic-ItemChanged by_mul fits =
      assign_op-ItemChanged m n deep e metadata dest lhs rhs left right room item_is refl
        (times_values m.doubles) (int32 (a *ℤ b)) (rw fits)
  arithmetic-ItemChanged by_add fits =
      assign_op-ItemChanged m n deep e metadata dest lhs rhs left right room item_is refl
        (plus_values m.doubles) (int32 (a +ℤ b)) (rw fits)
  arithmetic-ItemChanged by_sub fits =
      assign_op-ItemChanged m n deep e metadata dest lhs rhs left right room item_is refl
        (minus_values m.doubles) (int32 (a -ℤ b)) (rw fits)

abbrev pub is_boolean : FastValue → Bool
is_boolean (boolean b) = true
is_boolean _ = false

negate_other :
    (n : ℕ) (h : HeapStorage) (v : FastValue)
    → is_boolean v ≡ false
    → is_val_ref v ≡ false
    → negate (suc n) h v ≡ done (false, v, h)
unfolding negate
negate_other n h v other plain = ground arith

module _ (m : Machine) (n : ℕ) (deep : m.depth ≡ suc (suc n)) (e : Engine) (dest : ℤ) where
  -- `neg` of a register that holds a Boolean flips it and then stops the machine with `arg_error`.
  pub handle_neg_boolean :
      (b : Bool)
      → read_reg e dest ≡ done (boolean b)
      → (e' : Engine) × (handle_neg m e dest ≡ done e')
        × (e'.res ≡ arg_error)
        × (e'.rip ≡ e.rip)
        × (read_reg e' dest ≡ done (boolean (not b)))
  unfolding handle_neg negate
  handle_neg_boolean b holds =
      let (ys, stored, w) = write_reg-Written e dest (boolean (not b)) holds in
      (
        fail_with arg_error (raise_top (record e { memory = ys }) dest),
        rw (holds, deep, stored),
        refl,
        refl,
        unfold read_reg in w.now,
      )

  write_back : (v : FastValue) → read_reg e dest ≡ done v → write_reg e dest v ≡ done e
  unfolding read_reg write_reg
  write_back v holds = rw (write_at_same e.memory (e.rbp +ℤ dest) holds)

  -- `neg` of a register that holds neither a Boolean nor a reference changes nothing, and goes on to the
  -- next instruction with no error.
  pub handle_neg_other :
      (v : FastValue)
      → is_boolean v ≡ false
      → is_val_ref v ≡ false
      → read_reg e dest ≡ done v
      → handle_neg m e dest ≡ done (next_ip e)
  unfolding handle_neg
  handle_neg_other v other plain holds =
      rw (holds, deep, negate_other (suc n) e.heap v other plain, write_back v holds)

  -- `mov` of a plain value to a register that refers to a plain item writes the item, keeps the reference
  -- in the register, leaves the other items alone, and goes on to the next instruction.
  pub handle_mov_item :
      (metadata : ℕ) (src : ℤ) (r : Ref) (t v : FastValue)
      → fetch_value m.program e (mode_1 metadata) src ≡ done (some v)
      → read_reg e dest ≡ done (val_ref r)
      → deref e.heap r ≡ done t
      → is_val_ref t ≡ false
      → is_val_ref v ≡ false
      → (e' : Engine) × (handle_mov m e metadata dest src ≡ done (next_ip (raise_top e' dest)))
        × ItemChanged e dest r v e'
        × (e'.memory ≡ e.memory)
  unfolding handle_mov move_fetched move_through
  handle_mov_item metadata src r t v fetched holds item_is pt pv =
      let (h, emplaced, a) = emplace_other-Assigned n e.heap r v item_is pt pv in
      let back : write_reg (record e { heap = h }) dest (val_ref r) ≡ done (record e { heap = h }) =
        unfold write_reg read_reg in rw (write_at_same e.memory (e.rbp +ℤ dest) holds) in
      (
        record e { heap = h },
        rw (fetched, holds, deep, emplaced, back),
        record {
          item_changed = a.now;
          other_items = a.others;
          register_is = unfold read_reg in holds;
        },
        refl,
      )

  -- `mov` of a reference to a register that refers to an item writes no item: the heap stays, and the
  -- register holds the new reference.
  pub handle_mov_reference :
      (metadata : ℕ) (src : ℤ) (r q : Ref)
      → fetch_value m.program e (mode_1 metadata) src ≡ done (some (val_ref q))
      → read_reg e dest ≡ done (val_ref r)
      → (e' : Engine) × (handle_mov m e metadata dest src ≡ done e')
        × (e'.heap ≡ e.heap)
        × (read_reg e' dest ≡ done (val_ref q))
  unfolding handle_mov move_fetched move_through emplace_other
  handle_mov_reference metadata src r q fetched holds =
      let (ys, stored, w) = write_reg-Written e dest (val_ref q) holds in
      (
        next_ip (raise_top (record e { memory = ys }) dest),
        rw (fetched, holds, deep, stored),
        refl,
        unfold read_reg in w.now,
      )
