-- ===== src/Ir/Steps.antt =====
-- src/ir/steps.hpp: the operations, the addresses and the steps of the intermediate code.
use minuet_lang_mirror.Base.{ℤ, Bool, true, false, ◌&&◌, eq_ℤ}

-- `modulo` is the operation `mod`.
pub data Op : Type 0 where
  nop make_str make_seq seq_obj_push seq_obj_pop seq_obj_get frz_seq_obj neg inc dec : Op
  mul div modulo add sub equ neq lt gt lte gte : Op
  jump jump_if jump_else call native_call ret halt : Op
  meta_begin_while meta_end_while meta_mark_while_check meta_mark_break meta_mark_continue : Op
  meta_begin_if_else meta_end_if_else meta_mark_if_else_check meta_mark_if_else_alt last : Op

pub data AbsAddrTag : Type 0 where
  immediate constant temp heap last : AbsAddrTag

pub record AbsAddress : Type 0 where
  pub tag : AbsAddrTag
  pub id : ℤ

pub record TacUnary : Type 0 where
  pub dest : AbsAddress
  pub arg_0 : AbsAddress
  pub op : Op

pub record TacBinary : Type 0 where
  pub dest : AbsAddress
  pub arg_0 : AbsAddress
  pub arg_1 : AbsAddress
  pub op : Op

pub record OperNonary : Type 0 where
  pub op : Op

pub record OperUnary : Type 0 where
  pub arg_0 : AbsAddress
  pub op : Op

pub record OperBinary : Type 0 where
  pub arg_0 : AbsAddress
  pub arg_1 : AbsAddress
  pub op : Op

pub record OperTernary : Type 0 where
  pub arg_0 : AbsAddress
  pub arg_1 : AbsAddress
  pub arg_2 : AbsAddress
  pub op : Op

-- `Step`, a variant of the six.
pub data Step : Type 0 where
  tac_unary : TacUnary → Step
  tac_binary : TacBinary → Step
  oper_nonary : OperNonary → Step
  oper_unary : OperUnary → Step
  oper_binary : OperBinary → Step
  oper_ternary : OperTernary → Step

abbrev tag_eq : AbsAddrTag → AbsAddrTag → Bool
tag_eq immediate immediate = true
tag_eq constant constant = true
tag_eq temp temp = true
tag_eq heap heap = true
tag_eq last last = true
tag_eq a b = false

-- `==` of two addresses.
unfoldable pub address_eq : AbsAddress → AbsAddress → Bool
address_eq a b = tag_eq a.tag b.tag && eq_ℤ a.id b.id
