-- ===== src/Semantics/Enums.antt =====
-- src/semantics/enums.hpp: operators, and the kinds and groups of values.
use minuet_lang_mirror.Base.{Option, none, some}
use minuet_lang_mirror.Ir.Steps.{Op}

pub data Operator : Type 0 where
  access negate mul div modulo add sub equality inequality lesser greater at_most at_least assign :
      Operator

unfoldable pub operator_to_ir_op : Operator → Option Op
operator_to_ir_op Operator.negate = some Op.neg
operator_to_ir_op Operator.mul = some Op.mul
operator_to_ir_op Operator.div = some Op.div
operator_to_ir_op Operator.modulo = some Op.modulo
operator_to_ir_op Operator.add = some Op.add
operator_to_ir_op Operator.sub = some Op.sub
operator_to_ir_op Operator.equality = some Op.equ
operator_to_ir_op Operator.inequality = some Op.neq
operator_to_ir_op Operator.lesser = some Op.lt
operator_to_ir_op Operator.greater = some Op.gt
operator_to_ir_op Operator.at_most = some Op.lte
operator_to_ir_op Operator.at_least = some Op.gte
operator_to_ir_op Operator.access = none
operator_to_ir_op Operator.assign = none

pub data EntityKinds : Type 0 where
  anything primitive sequence_fixed sequence_flexible callable : EntityKinds

pub data ValueGroup : Type 0 where
  temporary locator : ValueGroup
