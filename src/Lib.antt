-- ===== src/Lib.antt =====
-- zordon runs the services of a project on a developer's machine. This library is about parts of
-- it that decide something: which log lines a filter drops, in which order the states of a
-- service are reached, which output lines are kept, which process holds a port, what environment
-- a service gets, when a probe gives up, in which order the values of a manifest are evaluated, by
-- which names services are known, and which values a declared type takes.
--
--   * LogFilter is internal/logfilter. Lexer and Parser are parse.go: `lex` and its steps, and the
--     recursive descent, where a Cursor holds the token at the position of the parser and those
--     after it. Severity is severity.go. Predicate is the predicates of logfilter.go, with their
--     costs and `match`. Plan is plan.go, with `Compile` and `Validate`. Errors are values of
--     Result, whose third constructor is fuel that ran out.
--   * Ring is internal/ring/ring.go, the ring of the last output lines of a service.
--   * Barrier is internal/barrier/barrier.go, the one-shot barrier; its child Any has the goroutines
--     of `Any` as a step relation over a store of barriers. Lifecycle is
--     internal/lifecycle/lifecycle.go, the states of an entity with a barrier each. `NewDef` is
--     `new_def`, `NewInstance` is `new_instance`, `Reach` is `reach`.
--   * Registry is internal/registry/registry.go, the directory of the services that hold ports. Its
--     operations are steps on a World: whether the lock can be taken and the file read, and the
--     disk. JSON is a parameter, and the probes of processes are an oracle. The file is written by
--     Zfs, `AtomicWrite` of internal/zfs/zfs.go: a Disk says which calls succeed and holds the file
--     and the temporary files beside it.
--   * Env is internal/zenv/zenv.go: layers of variables, list variables, dotenv files.
--   * Summary is internal/summary/summary.go, the timing report of a start. The sort of Go's library
--     is a parameter with laws. Version is internal/zversion/zversion.go. Probe is
--     internal/probe/probe.go: the loop of `Wait` over the results of its attempts.
--   * Alphasfile is internal/alphasfile. Its child Identity is identity.go, the names of services,
--     modules and toolchain pins, which are texts cut and joined at their dots and slashes, and, in
--     its child Annotate, `annotateModules`, which checks the names in a file. Dag is dag.go, with
--     the scopes of tree.go and the ids of values.go: Refs has the producer that a
--     traversal reads, Nodes and Build are `newGraph`, and Dag itself is `topoSort`, on the names and
--     the edges of what `newGraph` builds.
--   * Types is internal/ztypes/ztypes.go: Parse is `Parse`, Convert is `Convert`, Merge is `Merge`
--     without unique attributes. go-cty is the parameter Cty with the laws IsLawful, and a panic of
--     go-cty is a value of Converted.
--   * Base holds what the parts share: texts as lists of bytes, search in them, association lists,
--     integers, and lemmas on lists.
--
-- Fuel: `lex_from` takes the length of the source, since each step passes a byte. The parser takes
-- a bound in the number of tokens, since each call passes a token or goes down one of its
-- levels. `compile_bool` takes the height of the tree. `dfs_loop` takes the number of states,
-- since each nested call marks one more of them. The loops of the scanners take the length of the
-- line. `topo_loop` takes the number of nodes, since each turn moves one of them to the order.
--
-- Not modelled: regular expressions, floating-point numbers and gjson, which are the parameter
-- Deps of the log filter with its laws; go-cty and big.Float, which are the parameter Cty of the
-- types with its laws; hcl, of which an expression is what the code reads of it, its traversals or
-- its shape; the texts of error messages; what happens inside `Trigger`, which its `sync.Once`
-- makes one step; concurrent calls of `Reach`; the unique attributes of `Merge`; and the parts of
-- the program that start processes, talk over sockets or evaluate HCL.
pub mod Base
pub mod Alphasfile
pub mod Barrier
pub mod Env
pub mod Lifecycle
pub mod LogFilter
pub mod Probe
pub mod Registry
pub mod Ring
pub mod Summary
pub mod Types
pub mod Version
pub mod Zfs
