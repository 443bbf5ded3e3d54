-- ===== src/Lib.antt =====
-- AjarDSP: the assembler and the disassembler of the AjarDSP processor (sw/tools/asm), the tools
-- that load its programs into a board (sw/tools/target) with the board's end of the line
-- (rtl/verilog), the debugger inside the simulator (sw/tools/simdebug), and the target description
-- of the compiler (sw/tools/gcc/config/ajardsp).
--
-- The assembler reads a program twice through its grammar (asm.y, asm.l), which leaves two lists:
-- the bundles of the code section and the elements of the data section. `asm_gen_opcodes` of
-- asm.c goes over both lists in two passes. The first pass finds the address of each label, with
-- references to symbols ignored, and the second one writes the words. Instructions are encoded by
-- rows of the table `ajardsp_insns` (ajardsp-insns.c), whose operands each name an encoder of
-- asm.c. symtab.c keeps the labels. disasm.c looks a word up in the same table.
--
-- Common: C strings as lists of bytes, C's `int` as an integer, fixed-width words as natural
-- numbers with the wrap-around written out, static arrays as functions of the index, and
-- `Outcome`, which is how a C function ends: `RES_GOOD` with what it wrote, `RES_BAD`, `exit(1)`,
-- or a fault (a step that C leaves undefined, or a failed `assert`).
-- Bits: laws of `&` and `|` at every width. Bits.Digit: one binary digit; Bits.Laws: the laws;
-- Bits.Masks: masks and complements as arithmetic; Bits.Subsets: the bits of one number among
-- those of another.
-- Asm.Types: the structures of asm.h. Asm.Symtab: symtab.c. Asm.Encode: the encoders
-- `encode_spec` to `encode_symref` (here with the ending _fn, since the plain names are those of
-- the constructors of `Encoder`, the function pointer); Asm.Encode.Exclusive: encoders that accept
-- no common operand; Asm.Encode.Writes and Fields: where an encoder writes; Asm.Encode.Values:
-- what it writes. Asm.Insns: the table, row by row, in Bmu, Cu, Lsu and Pcu; Asm.Insns.Checks:
-- checks of all rows. Asm.Bundle: `operand_match` and `try_assemble_inst_bundle`, with its proofs
-- in Unique, Once, Size, Agree, Words and Values. Asm.Passes: `init`, `asm_do_pass_0`,
-- `asm_do_pass_1` and `asm_gen_opcodes`, with its proofs in Align, Agree, Labels, Data, Program,
-- Words, Invariant, Duplicates, Stays, Untouched and Stored. Asm.Output: the lines that
-- `output_hex` and `symtab_output_mapfile` print.
-- Disasm: `disasm` and `str2int` of disasm.c; Disasm.Listing: the loop of its `main`;
-- Disasm.Codes: checks of the table; Disasm.Scan, Fields, Assembled, Bundles, Program and Hex:
-- proofs. Tests: runs of small programs and the theorems at concrete inputs.
--
-- The files that the assembler prints go to a board in two ways. wb_debug.c reads them and sends
-- writes to addresses on the bus of rtl/verilog/soc/wb_debug.v; targetmon.c sends whole lines to
-- the monitor of rtl/verilog/top_top.v. Both ends of each line are modelled, so that a load can be
-- stated as what the board's memories hold afterwards, or, for the block RAMs of imem.v, as the
-- writes that they get. A counter that overflows an `int` before its loop ends is a fault.
-- Target.Bytes: numbers as bytes. Target.Scan: `fscanf` with `%0Nx`. Target.Debug: the calls of
-- `wb_debug_w32` and what each function of wb_debug.c makes of them; Target.Debug.Receiver: the
-- state machine of wb_debug.v; Delivered, HexFile, Sweep, Swept and Patterns: proofs;
-- Target.Debug.Load: `target_load_imem` and `target_load_dmem`, with its proofs in Ends, Lines,
-- Imem, Dmem and Board. Target.Monitor: targetmon.c; Target.Monitor.Receiver: the state machine of
-- top_top.v with the port of imem.v; Reset, Scans, Imem, Imem.Kept, Dmem and ReadBack: proofs.
-- A tool is the list of the bytes that it writes, a board a function of the bytes that it receives.
-- The loads run on fuel, one unit a round: the length ends them, so `length / 8 + 1` and
-- `(length + 3) / 4 + 1` are enough. A variable that no conversion has set holds an argument of the
-- model.
--
-- The debugger is called by the simulator at each falling edge of the clock (debug-pli.c), reads
-- the design through VPI, fills the windows (debug-gui.c), and waits for a button. Simdebug.Vpi and
-- Simdebug.Lists: what it uses of VPI and of GLib, as interfaces, the one of GLib with the documented
-- laws; what a value that is put does to a running design is the simulator's.
-- Simdebug.MemoryView: the memory and its window, proofs in Shown and Reached; Simdebug.Registers:
-- the registers, proofs in Found and Edited; Simdebug.Breakpoints: the breakpoints, proofs in Counted;
-- Simdebug.Source: `Source_Init`, proofs in Listing; Simdebug.Sync: the buttons and the waiting,
-- proofs in Stops. The simulator's thread and the window's thread are steps that take turns. The
-- loop that reads the line numbers runs on fuel, since it need not end.
--
-- Font: sw/tools/misc/genvgafonts.c, which prints a font file as initial values of a memory, with
-- its proofs in Initial, or draws its characters, with its proofs in Rows and Drawn. Its loops run on fuel,
-- which is enough for one round more than the file has rows or bytes; a character without rows
-- uses up any fuel, as the program does not end. Opening a file and what the variables hold before
-- they are set are arguments of the model.
--
-- The static variables of asm.c and symtab.c are the record `AsmState`, passed from step to step;
-- inside a bundle the variables of `try_assemble_inst_bundle` are the record `Emit`. A function
-- that ends in `RES_BAD` or `exit(1)` returns no state, since the callers end the program. Loops
-- over linked lists are recursion on lists, counted loops recursion on the rounds left; the
-- assembler needs no fuel. Characters are ASCII, which the lexer guarantees. `atoi` of a number that is no
-- `int` is undefined in C; the model takes the number itself. `.align` operands of more than
-- 2 ^ 30 would overflow an `int`, and the theorems on alignment leave them out.
--
-- The compiler's code goes through the assembler. Gcc.Registers: the tables of ajardsp.h and the
-- questions about registers in ajardsp.c; Gcc.Classes: a proof on the classes; Gcc.Arguments: the
-- registers of arguments and results, with its proofs in Apart; Gcc.Frame: the registers that a
-- function saves, with its proofs in Saved. GCC's own functions are arguments of the model, and its
-- modes are those that the code names and one for all others.
--
-- Not modelled: the grammar and the lexer, `main` of the assembler, the listing file and the
-- messages on the error output, `main` of the target tools, ethraw.c, the widgets of the debugger's
-- windows, the parts of GCC's target description that work on its instruction
-- trees or print assembler text, and the rest of the hardware description.
pub mod Common
pub mod Bits
pub mod Asm
pub mod Disasm
pub mod Target
pub mod Simdebug
pub mod Font
pub mod Gcc
pub mod Tests
