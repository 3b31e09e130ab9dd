-- ===== src/Lib.antt =====
-- A model of ATeam, a Go program that runs coding agents unattended, with the theorems that make
-- its core correct.
--
-- A command builds a tree of steps: bundles (one prompt for one agent), pipelines and parallel
-- stages. Package flow verifies all prompts of the tree, then executes it: a bundle calls its
-- hooks, allocates a run, resolves its prompt, and hands it to an executor of package runner,
-- whose pool runs a batch of tasks on a bounded number of slots. Before that, package secret
-- looks up the credentials that an agent needs and leaves one of each group in its environment.
-- Package config names the directory of a project, package runtime reads the configuration of the
-- agents, package codex runs an agent in a terminal, and package prompts finds the files of a
-- prompt, and fills in its templates.
--
-- - Prelude: names of the libraries, lists and tests over the native numbers, texts as lists of
--   bytes with Go's `strings` functions, maps as association lists, `filepath.Join`.
-- - Secret.Store: internal/secret/store.go; `get`, `set`, `delete` and `list` are the methods of
--   `FileStore` on the text of the file. Store.Lines, Store.Entries and Store.Files hold the lemmas
--   on lines, on keys, and the theorems.
-- - Secret.Resolve, Secret.Validate: resolve.go and validate.go of that package. The keyring, the
--   files, the environment and the home directory are the fields of `World`.
-- - Runner.Types: the carriers of internal/runner/runner.go that the other parts read.
-- - Runner.Pool: internal/runner/pool.go. The dispatch loop and the workers of `RunPoolWithOpts` are
--   a step relation on a state: tasks that wait, tasks at work, slots held behind a recorded
--   summary, summaries. `admit`, `refuse`, `acquire`, `give_up` and `skip_one` are the loop's steps,
--   `finish` and `release` a worker's, `cancel` that of the context. A summary keeps the task that
--   it was recorded for, which the code does not.
-- - Runner.Tail: `readNewLines` and `splitLines` of progress_scan.go and tailer.go there, on what a
--   round of polling finds of a file. Runner.Template: template.go there; `strings.Replacer` is
--   `replace_from`.
-- - Flow.Types: the types of internal/flow/flow.go, reporter.go and runtime.go. Flow.Bundle is
--   `PromptBundle.execute`, in a monad of calls made and of panics; Flow.Compose is
--   `Pipeline.runDetailed` and `Parallel.execute` with both dispatch loops; Flow.Verify is `Verify`,
--   `Run`, `RunBundle` and `FirstError`. Flow.Schedule has the interleavings of `runConcurrently`:
--   a `Scheduler` chooses in which order the workers append their results, chunk by chunk as under
--   the mutex, and whose turn it is to call the reporter; the theorems hold for every choice.
-- - Config.ProjectId: internal/config/projectid.go. `runes` is the loop over the code points of a path,
--   with U+FFFD for a byte that starts no valid sequence, and `escape` the `switch` on one.
-- - Prompts.Parser: internal/prompts/assembler/parser.go, how `Parse` tells the kind, the role and
--   the fragment of a prompt file from its name.
-- - Prompts.Orphan: `closestRole` and `levenshtein` of orphan.go there, the table row by row; Orphan.Find
--   is `FindOrphans`, on what the walk of each anchor visits; Find.Walks, Find.Visits and Find.Unowned tell what it
--   collects and reports by the visits alone. Parser.Validate and Assembler.Anchors
--   are validate.go and anchors.go.
-- - Prompts.Assembler: assembler.go there. A file system is what `fs.ReadFile` and `fs.Glob` answer
--   on it; `first_match` and `all_matches` are the two searches of the chain of anchors.
-- - Prompts.Assemble: `Resolve` and `ResolveFramingOnly` of resolve.go, and `Assemble` of assemble.go,
--   each with loops and lookups of its own. Prompts.Frontmatter is frontmatter.go.
-- - Prompts.Template: template.go there. Template.Scan searches braces and fallbacks,
--   Template.Tokens is `tokenize`, and Template.Render the `Engine`, where one argument counts the
--   depths of inclusion that are left, and `MapVars`. Prompts.Result has the errors of the package.
-- - Runtime.Config: the types and `resolveInheritance` of internal/runtime/config.go; Config.Blocks is
--   the conversion of decoded blocks, and Config.Load is `Load` and what looks files up. Config.Chain has the configuration that is wanted of an agent,
--   as an inductive type, and Config.Settled the same with inheritance field by field. The parser,
--   from a text to `HclFile`, is a parameter, and so is the order in which a map is gone through.
-- - Codex.Pane, Codex.Delivery, Codex.Ready, Codex.Idle, Codex.Output: internal/codex/adapter.go, which
--   drives Codex in a terminal. The loops of `waitReady`, `waitInputEcho` and `waitIdle` are functions
--   of a list of polls: what a round reads from the context, the pane and the clock. The calls that it makes are part of what it returns.
-- - Tests: each theorem on a small input.
--
-- Functions from outside (hooks, executors, resolvers, `PreDispatch`) are given the moment of the
-- call, so that one function stands for every history of answers. A call of a hook, an executor or a
-- resolver returns or panics; `PreDispatch` is taken to return. What such a function calls itself, of
-- the reporter or the database, is not in the log of a run.
-- Execution is by recursion on the tree of steps, and that the pool ends is proved with a measure.
-- Fuel is the length of the text for the white space in `trim_space`, where every round removes a
-- byte, for the search of `split_marker`, where every round searches a shorter text, and for the
-- directives in `render_at`, where every round takes two bytes at least. It is one more than the
-- number of agents for `resolve_inheritance`, as the agents on the way to a base are all different.
--
-- Not modelled: times and durations; panics of the reporter and of `PreDispatch`, the only ones that
-- the workers of a parallel stage would have to recover; the channel of `RunPool` being
-- drained while it runs, which can only free room; write failures of the file system other than
-- as an outcome that `Writes` chooses; the other packages of the program.
pub mod Prelude
pub mod Config
pub mod Secret
pub mod Runner
pub mod Flow
pub mod Prompts
pub mod Runtime
pub mod Codex
pub mod Tests
