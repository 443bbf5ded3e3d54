-- ===== src/Asm/Insns/Rows.antt =====
-- A row of `ajardsp_insns` and one of its operands, written as the C initialisers give them.
use ajardsp.Common.{ℕ, List, some, CString}
use ajardsp.Asm.Types.{OperandType, Encoder, OperandDef, InstSize, InstDef}

abbrev pub operand : OperandType → ℕ → ℕ → Encoder → OperandDef
operand type offset width encode = record {
  type = type;
  offset = offset;
  width = width;
  encode = some encode;
}

abbrev pub insn : CString → InstSize → ℕ → ℕ → List OperandDef → InstDef
insn mnemonic size pattern nr_operands operands = record {
  mnemonic = mnemonic;
  nr_operands = nr_operands;
  pattern = pattern;
  size = size;
  operands = operands;
}
