-- ===== src/Target.antt =====
-- The tools that talk to a target board, sw/tools/target, and the board's end of the lines, which
-- is rtl/verilog.
pub mod Bytes
pub mod Scan
pub mod Debug
pub mod Monitor
