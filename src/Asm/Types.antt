-- ===== src/Asm/Types.antt =====
-- The types of sw/tools/asm/asm.h. A list of structures linked by `next_p` is a list, a `char *`
-- that may be NULL an optional string, an `int` an integer and a `uint32` a number below 2 ^ 32.
use ajardsp.Common.{ℕ, Bool, Option, none, List, ℤ, CString}

pub data OperandType : Type 0 where
  reg reg_with_offset integer symbol_ref : OperandType

pub record Operand : Type 0 where
  pub type : OperandType
  pub name : Option CString
  pub offset : ℤ

pub record Instruction : Type 0 where
  pub pred : Option CString
  pub pred_neg : Bool
  pub mnemonic : CString
  pub ops : List Operand
  pub lineno : ℕ

-- The grammar makes a bundle of exactly one kind: instructions, a label, or `.align`.
pub record InstBundle : Type 0 where
  pub insts : List Instruction
  pub label : Option CString
  pub align : ℤ

pub record DataElement : Type 0 where
  pub label : Option CString
  pub symref : Option CString
  pub value : ℤ
  pub skip_length : ℤ

-- The function that `encode` of an operand definition points to.
pub data Encoder : Type 0 where
  encode_spec encode_acc encode_acc_half encode_ptr encode_pred encode_reg : Encoder
  encode_int encode_symref : Encoder

pub record OperandDef : Type 0 where
  pub type : OperandType
  pub offset : ℕ
  pub width : ℕ
  pub encode : Option Encoder

pub data InstSize : Type 0 where
  inst_16 inst_32 : InstSize

pub record InstDef : Type 0 where
  pub mnemonic : CString
  pub nr_operands : ℕ
  pub pattern : ℕ
  pub size : InstSize
  pub operands : List OperandDef

-- An element of `operands` that no initialiser names: all zero.
abbrev pub zero_operand_def : OperandDef
zero_operand_def = record { type = reg; offset = 0; width = 0; encode = none }

-- `enum` values are compared as numbers.
abbrev pub type_eq : OperandType → OperandType → Bool
type_eq reg reg = Bool.true
type_eq reg_with_offset reg_with_offset = Bool.true
type_eq integer integer = Bool.true
type_eq symbol_ref symbol_ref = Bool.true
type_eq _ _ = Bool.false
