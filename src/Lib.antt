-- ===== src/Lib.antt =====
-- Verification of ferritex, a TeX compiler in Rust: the parts of the parser that keep state, the
-- barrier at which compiled partitions meet, the graph of dependencies, the planner of partitions,
-- the reader of TeX font metrics, the breaking of paragraphs into lines, the policy on files, the
-- scheduler of recompiles, the previews and the documents an editor has open.
--
-- How the parts meet. The tokenizer turns bytes into tokens by the category codes that the macro
-- engine overrides. The parser's driver (crates/ferritex-core/src/parser/api.rs, not modelled)
-- takes tokens, expands macros by the macro engine, skips branches by the conditional state and
-- assigns registers; `{` and `}` push and pop a group of the engine and of the registers.
-- Partitions of a document are compiled apart and commit what they wrote at a barrier. The driver
-- asks the path policy and the registry of artifacts before a file is read or written. A watcher
-- enqueues changed files at the scheduler, which hands them to one compile at a time. A compile's
-- result is published to the preview session of its target, if the policy and the session allow it.
--
-- Files and sources, under crates/ferritex-core/src:
-- - Parser.Token: parser/tokenizer.rs, `CatCode`, `TokenKind`, `Token`.
-- - Parser.Registers: parser/registers.rs, `RegisterStore`. Cells, Field, Banks and Sparse see the
--   seven banks as one, Effect and Scoping give the effect of an operation on a register, Runs and
--   Groups are about sequences of operations.
-- - Parser.Conditionals: parser/conditionals.rs, `ConditionalState`; Skip is `skip_false_branch`,
--   Bodies the text that it passes over, Branches where it resumes.
-- - Parser.MacroEngine: parser/macro_engine.rs, `MacroEngine`. Commands are sequences of its operations.
-- - Parser.Tokenizer: parser/tokenizer.rs, `Tokenizer`; State and the monad of its methods, Decode for
--   `decode_next_char`, Scan for the rest, Progress to Words for what each method consumes.
-- - Compilation.CommitBarrier: compilation/commit_barrier.rs, types here, methods in Operations.
-- - Incremental.Dependencies: incremental/api.rs, `DependencyGraph`; Worklist is about the loop of
--   `affected_paths`, Reverse about the edges turned round.
-- - Incremental.Partition: `DocumentPartitionPlanner` of incremental/api.rs, compilation/partition.rs.
-- - Font.Tfm: font/tfm.rs. Reader reads numbers and tables, Parser is `TfmMetrics`; Validity is about
--   the files that are accepted, Lookup about the lookups in them.
-- - Typesetting.KnuthPlass: typesetting/knuth_plass.rs. Candidates, Cost, Search and Paragraph are its
--   functions; Path is the specification of the search, Relax, Table and Optimal its proof, Bounds,
--   Sizes and Edges the sizes for which nothing wraps around, Feasible, Paragraphs and Breaks the loop
--   over paragraphs.
-- - Policy: policy/mod.rs (`normalize_path`), policy/path_access.rs, policy/artifact_registry.rs.
-- Under crates/ferritex-application/src:
-- - Application.RecompileScheduler: recompile_scheduler.rs.
-- - Application.OpenDocumentStore: open_document_store.rs; Sessions are the editor's notifications.
-- - Application.PreviewSession: preview_session_service.rs and ExecutionPolicy of
--   crates/ferritex-core/src/policy/execution_policy.rs. Service has the methods; Invariant, Lifetime
--   and Exclusive are about sequences of them, Publishing about `check_publish`.
-- Prelude has the shared tests, lists and their elements, integers with wrap-around, maps, ordered sets
-- and sorting; a module Examples has tests and the theorems at concrete inputs.
--
-- How code is modelled. A method with `&mut self` is a function to the state after it. A panic is a
-- result of its own: `none` in the macro engine and the line breaker, `panic` in the tokenizer and
-- the TFM reader. Texts are lists of code points, bytes and `u8`, `u16`, `u32` and `usize` values
-- are natural numbers, and `i32` values are integers that are only stored, except in `process_or`,
-- which wraps them; the line breaker's `i64` and `i128` wrap around as in a release build. A
-- `HashMap` is an association list; its order is read by no code modelled here that does not sort.
-- A `Vec` that is a stack has its last element first. An `Instant` is a number, given to the
-- operation that reads the clock. An `f64` is only stored, as its bits. The preview's transport is
-- a parameter, and so are the lower case, `trim` and file stem that the planner calls. Paths are
-- lists of components as on Unix.
--
-- Bounds and fuel. A loop of the tokenizer runs on fuel `fuel_for`, twice the bytes left and two
-- more: each round consumes a byte or leaves a mode. The items of an input are collected on fuel of
-- four for each byte and one. The loop of `affected_paths` has a round for each changed path and
-- each path with an edge. The breaks of a path are read back on fuel of one more than the index of
-- its end. A `u16` is printed with five digits. A `usize` has 64 bits in the TFM reader. The
-- tokenizer's lines and columns wrap around as `u32`, and a preview's revision and the counter of
-- sessions as `u64`; what rests on new ids has a bound on the number of calls.
--
-- Not modelled: the parser's driver and packages, sessions and snapshots, the rest of typesetting,
-- other fonts, graphics, PDF, SyncTeX, bibliography, the compile service and its cache, the
-- editor's service, and all that calls the operating system.
pub mod Prelude
pub mod Parser
pub mod Compilation
pub mod Incremental
pub mod Font
pub mod Typesetting
pub mod Policy
pub mod Application
