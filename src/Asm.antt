-- ===== src/Asm.antt =====
-- The assembler, sw/tools/asm: types of asm.h, symbol table, operand encoders, instruction table,
-- bundles, the two passes and the files that come out.
pub mod Types
pub mod Symtab
pub mod Encode
pub mod Insns
pub mod Bundle
pub mod Passes
pub mod Output
