-- ===== src/Tests.antt =====
-- Runs of the model on small programs, and the theorems at concrete inputs.
mod Programs
mod Bundles
mod Rows
mod Files
mod Edges
mod Boards
mod Monitors
mod Debuggers
mod Compiler
mod Fonts
