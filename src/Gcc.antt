-- ===== src/Gcc.antt =====
-- The target description of GCC, sw/tools/gcc/config/ajardsp: the registers, their classes, the
-- registers of arguments and results, and the registers that a function saves. A register is its
-- number; what GCC asks of a type or a mode is an argument.
pub mod Registers
pub mod Classes
pub mod Arguments
pub mod Frame
