-- ===== src/Codegen/Emitter/Metadata.antt =====
-- src/bcgen/emitter.hpp and emitter.cpp: arguments and the metadata that encodes their modes.
use minuet_lang_mirror.Base.{ℕ, ℤ, ◌+◌, ◌*◌, ◌%◌, ◌^◌, Bool, ◌&&◌, ◌==◌, eq_ℤ, Option, none, some}
use minuet_lang_mirror.Ir.Steps.{AbsAddress, AbsAddrTag}
use minuet_lang_mirror.Runtime.Bytecode.{ArgMode}

pub record PseudoArg : Type 0 where
  pub value : ℤ
  pub tag : ArgMode

-- The number of a mode in the source's enumeration.
abbrev pub mode_number : ArgMode → ℕ
mode_number ArgMode.immediate = 0
mode_number ArgMode.constant = 1
mode_number ArgMode.reg = 2
mode_number ArgMode.stack = 3
mode_number ArgMode.heap = 4
mode_number ArgMode.last = 5

-- `==` of two arguments.
unfoldable pub pseudo_arg_eq : PseudoArg → PseudoArg → Bool
pseudo_arg_eq lhs rhs = mode_number lhs.tag == mode_number rhs.tag && eq_ℤ lhs.value rhs.value

-- `encode_metadata` of one, two and three arguments; of none it is 0.
unfoldable pub encode_one : PseudoArg → ℕ
encode_one a0 = (1 + mode_number a0.tag * 2 ^ 2) % 2 ^ 16

unfoldable pub encode_two : PseudoArg → PseudoArg → ℕ
encode_two a0 a1 = (2 + mode_number a0.tag * 2 ^ 2 + mode_number a1.tag * 2 ^ 6) % 2 ^ 16

unfoldable pub encode_three : PseudoArg → PseudoArg → PseudoArg → ℕ
encode_three a0 a1 a2 =
    (3 + mode_number a0.tag * 2 ^ 2 + mode_number a1.tag * 2 ^ 6 + mode_number a2.tag * 2 ^ 10)
    % 2 ^ 16

abbrev pub mode_of : AbsAddrTag → Option ArgMode
mode_of AbsAddrTag.immediate = some ArgMode.immediate
mode_of AbsAddrTag.constant = some ArgMode.constant
mode_of AbsAddrTag.temp = some ArgMode.reg
mode_of AbsAddrTag.heap = some ArgMode.heap
mode_of AbsAddrTag.last = none

abbrev pub with_mode : ℤ → Option ArgMode → Option PseudoArg
with_mode aa_value none = none
with_mode aa_value (some tag) = some (record { value = aa_value; tag = tag })

unfoldable pub translate_value_aa : AbsAddress → Option PseudoArg
translate_value_aa aa = with_mode aa.id (mode_of aa.tag)
