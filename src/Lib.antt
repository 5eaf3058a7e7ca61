-- ===== src/Lib.antt =====
-- A model of ReWizard, a static and hybrid analyser of x86 executables, and what holds of it.
--
-- The program loads an image, recovers its functions and basic blocks by recursive descent, and
-- then runs passes over a module: they resolve imports, track constants in registers, detect
-- opaque predicates and remove their dead edges, and check suspects against execution traces. The
-- units are shared: a module holds functions, decoded instructions, a symbol table and a table of
-- cross-references; a function holds blocks, call sites and a control-flow graph.
--
-- Parts, with the code (under ReWizardLib) that each file models:
--   Prelude    numbers, lists, options, std::map and std::set as sorted association lists, ℤ, and
--              64-bit words; the lemmas that all parts share
--   Insn       include/ReWizard/Disassembler/Disassembler.h: the decoded instruction; Insn/Walk
--              the loop over the instructions of a block
--   Xrefs      source/Analysis/Units/XrefManager.cpp (AddXref, RemoveXref, the queries)
--   Symbols    source/Analysis/Units/SymbolTable.cpp (Table, Lookups), SymbolManager.cpp
--              (Annotations), and source/Analysis/Passes/ImportAnalysisPass.cpp (Imports)
--   Units      source/Analysis/Units/BasicBlock.cpp (Split), Function.cpp (Lookup:
--              GetBasicBlockForAddress; Normalize: NormalizeBasicBlocks; Graph: BuildCFG;
--              Indirect: GetIndirectInstructions), Module.cpp (Index:
--              GetFunctionForAddress)
--   Passes     source/Analysis/Passes: AbstractInterpretationPass (Interval, Domain),
--              DataFlowAnalysisPass (DataFlow), OpaquePredicatePass (Opaque), HybridAnalysisPass
--              (Hybrid; Hybrid/Run: Run), StaticControlFlowRebuilder (Rebuilder: the handlers of
--              calls, branches and trampolines; Descend: AnalyzeFunction; Explorer: the queue of
--              functions and the linear sweep), source/Analysis/PassManager.cpp (Manager: the order
--              in which the passes run) and PassProvider.cpp (Registry)
--   Loading    source/FileLoader/FileLoader.cpp: LoadSections (Contents), ApplyRelocations
--              (Relocations), GetExecutableSections (Sections), and the constructor, Load and the
--              destructor (Load)
--   Context    source/Analysis/AnalysisContext.cpp and AnalysisManager.cpp: Create
--   Emulator   source/Hybrid/BochsExecutor.cpp and BochsInstrumentationBridge.cpp (Memory:
--              LoadBinary and the registers; Session: Execute, BootFromDisk and the callback that
--              records an instruction)
--   Report     source/Analysis/AnalysisResult.cpp: the JSON value of a result (Values, and
--              BuildFromContext), ToDot (Export) and ToText (Printed), as lines
--   Database   source/Database/AnalysisDatabase.cpp: the statements that each method hands to
--              SQLite, and its transactions (Annotations and References: SaveTo
--              and LoadFrom of source/Analysis/Units/SymbolManager.cpp and XrefManager.cpp)
--   Trace      source/Hybrid/SimpleTraceReader.cpp: the records of a trace, their index,
--              and Load on the JSON value of a file (Parse)
--   Tests      sample code and runs
--
-- A state is a record and an operation a function from the old state to the new one, under the
-- name of the method in snake case. A pointer to a block or a function is its place in the vector
-- that owns it. Addresses are natural numbers below 2^64, and an addition that may wrap is
-- add_word. Signed values are ℤ; an operation whose result is undefined behaviour in C++ (a signed
-- overflow, a shift by 64 or more) has no result.
--
-- The descent writes the module, the set of visited addresses and the queues; the passes that follow
-- read the blocks and the instructions that it leaves, and the database stores them. The emulator
-- hands its bridge the state before each instruction, the bridge makes records of them, and the hybrid
-- pass reads records for the targets of indirect jumps, from which the descent starts again.
--
-- Fuel: a walk over a block is given one more step than the block has addresses, enough since an
-- instruction has a positive length; the restarts of NormalizeBasicBlocks are given one more than
-- the number of addresses strictly inside blocks, enough since every restart splits a block; the
-- queue of BuildCFG is given the bound of Units/Function/Graph, enough since a round either visits
-- a block or pops one that was visited; the loops of the descent are given the size of the image,
-- enough since a round that goes on visits a new address of it; the queue of functions is given
-- twice that size more than its length, enough since each visited address brings at most two
-- entries; the sweep is given the size of its section, enough since it moves at least one byte;
-- the sort of the passes is given its queue and its edges, enough since a round takes a pass and its
-- edges away. LoadBinary is given a round for each byte, enough since a round takes one at least; the
-- queue of GetIndirectInstructions is given one for each block and each successor, enough where no
-- lookup splits a block, and some for each address at which one can. A loop that runs out of fuel
-- has no result.
--
-- Not modelled: the memory mappers (system calls; a mapper answers with a base or with null), the
-- opening and parsing of an image (LIEF), SQLite and Bochs (parameters: what they execute and answer,
-- with their documented behaviour as named hypotheses), the decoder (Zydis, a parameter), the parsers
-- of PE files and of JSON text and the printing of JSON, the lifting to LLVM, the callbacks of the bridge with an
-- empty body, static registration, the order of the passes' names, log messages, and the printed
-- disassembly.
pub mod Prelude
pub mod Insn
pub mod Xrefs
pub mod Symbols
pub mod Units
pub mod Passes
pub mod Database
pub mod Loading
pub mod Trace
pub mod Tests
pub mod Emulator
pub mod Report
pub mod Context
