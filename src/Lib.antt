-- ===== src/Lib.antt =====
-- Verification of Personal Productivity AI, a desktop application for markdown notes with an agent
-- that has tools. The development models parts of the Rust program and proves that they keep their
-- promises. Paths are from the repository's root.
--
-- The parts and their files:
--   VirtualPath: src/agent/vfs/. Every file tool of the agent names files by virtual paths, a
--     library's name and a path in it. `VirtualPath::parse` is `parse`, `VirtualPath::resolve` is
--     `resolve`, `behaviour::resolve` is `resolve_virtual_path`. Paths are Unix paths.
--   Cursor: src/agent/tools/cursor.rs. The tools return long results in pages; a session in a cache
--     holds the rest. The cache is a parameter (`SessionCache`): it may forget sessions, where a
--     property does not ask otherwise. A manager's methods are functions on the cache's store.
--   CsvDb: src/agent/tools/csv_db/. `Value` has values, errors and machine integers, `Lexer`, `Parser`
--     and `Eval` are predicate.rs, `Database` is query.rs and `Tables` is operations.rs. An operation
--     takes the directory of files and returns the directory that it leaves with its result. The type
--     f64, Unicode's tables and the csv crate with the disk are parameters (`Float`, `Unicode`,
--     `Csv`).
--   Document: src/app/markdown/document.rs. Front matter, task toggles and revisions of a note. The
--     YAML parser and the markdown parser are parameters (`Parsers`).
--   Editor: src/app/ui/text_buffer.rs. `Undo` is the undo history and `Buffer` the open file, which
--     Document's parser splits and prints. Writes and published events are a list of effects.
--   Discord: src/app/integrations/discord/. `RateLimit` is rate_limit.rs, `Context` is context.rs and
--     `Safety` is safety.rs. The bot asks the limiter and the filter before it adds a message to a
--     conversation. Instants and new ids are handed in.
--   Sse: src/agent/lib/mcp/sse.rs. `parse_sse_body` reads the events of a server's answer.
--   Agent: src/agent/agent_impl.rs, tool_executor.rs, datamark.rs, events.rs, and of llm_client.rs
--     `parse_usage_block` and the merge of system messages (`Messages`). `Executor` executes a turn's
--     tool calls, `Turn` is one turn, `Run` is the loop, and `Session` the driver of
--     src/agent/session.rs, which keeps the sessions between their runs. `Handle` is the user
--     interface's handle on it, `AgentSession`, which shares cancel flags with the prompts that it
--     sends; u64::MAX is a parameter of its token counts. The state of a run has the
--     conversation, the log and the executor's world; what the observer is told is a list of events.
--     serde_json and the tools are parameters (`Json`, `Tools`), and the model's replies and the cancel
--     flag are a script. `Example` has a small JSON for the tests.
--   Batch: src/app/agent/batch/, and `BusReader::recv` of src/app/bus/core.rs. `Coordinator` makes the
--     jobs, `Executor` runs them, and each runs the agent (`Blocking`) and waits for its end on the bus.
--     What the tasks do, and the order in which they end, are parameters.
--   Workspace: src/app/workspace/. `Files` and `Directories` are the watchers, which keep what the
--     events of the bus make known, and `Tags` is tags.rs. What a reader yields is a list of events.
--   Table: src/app/markdown/table_width/mod.rs and table_layout.rs. `Lines` has the line count and the
--     breakpoints of cells and columns, `Shrink` the wrap set and its two strategies, `Solve` the three
--     solvers of all columns, `Ftwa` the algorithm with its regimes and assertions, `Strategy` the
--     names of the strategies, and `Layout` the geometry of the cells. The type f32 is a parameter
--     (`F32`); the laws of IEEE 754 that the theorems need are hypotheses (`IsIeee`, `IsOrdered`).
--   Tabs: src/app/ui/tabs.rs. The open documents, the tab strip, the headings' ids and their caches. What
--     src/app/command_executor.rs and src/app/orchestrator.rs write to the field `tabs` is a call, too.
--     The hashes and the headings that the Markdown parser finds are parameters (`Hashes`).
--   Common: texts as lists of code points, lists and integers over the native numbers, and maps as
--     association lists, with their lemmas.
--
-- Loops and fuel. The tokenizer takes the length of the input as fuel, each token or space taking at
-- least one character. The parser's loops take one more than the tokens left, and the descent into
-- parentheses one more than all tokens, each level taking at least one token. The theorems on
-- IsReturned prove that neither runs out. The walk over a session's pages takes the number of items.
-- The water fill takes one more than the steps on its heap and the breakpoints left, since a step that
-- is put back uses a breakpoint up, and the ratio solver one more than the columns, since each turn but
-- the last makes a column inactive; Table's proofs show that this is enough. The bisection has 100
-- rounds, as in the code. A run of the agent has no bound of its own: it goes on while the model calls tools, and the model's
-- script is what it recurs on. The wait of a batch job takes the number of the run's events as fuel.
--
-- Integers. An i64 is an integer in range; where an operation leaves the range, the debug build panics
-- and the release build wraps around, which the model tells apart by a flag. Lengths, counts and
-- instants are natural numbers, and numbers of lines are integers without a bound,
-- where the source has an i32 (tables of fewer than 2^31 lines); the counts of the rate limiter stay at or below a limit that is a u32.
--
-- Not modelled: the user interface but for the tabs, the Markdown parser, the model's client, the protocols
-- (the rest of MCP, JMAP, CalDAV, CardDAV, Trello, weather), the background tasks and exports, all of
-- which are input and output or the work of other crates for the most part; how many tasks of a batch
-- run at once, which the semaphore of another crate decides; list_csv, which reads a directory.
pub mod Common
pub mod VirtualPath
pub mod Cursor
pub mod CsvDb
pub mod Document
pub mod Editor
pub mod Discord
pub mod Sse
pub mod Agent
pub mod Batch
pub mod Workspace
pub mod Table
pub mod Tabs
