-- ===== src/Simdebug.antt =====
-- The debugger that runs inside the Verilog simulator, sw/tools/simdebug: debug-pli.c, which the
-- simulator calls, and debug-gui.c, its windows. The simulator (VPI) and the list library (GLib) are
-- interfaces; of the windows (GTK) the model keeps the numbers that are set in their cells.
pub mod Vpi
pub mod MemoryView
pub mod Lists
pub mod Breakpoints
pub mod Sync
pub mod Registers
pub mod Source
