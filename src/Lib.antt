-- ===== src/Lib.antt =====
-- The decision memory of feishu-agent-mem (wxxsimply/feishu-agent-mem, Go): the graph of
-- decisions, the pipeline that changes it, the signals that lead to changes, and the guards
-- around the model calls.
--
-- How the program works. Adapters for the services of Feishu watch for changes and emit signals.
-- The router (internal/signal/router.go) plans which adapters to ask for context, and the state
-- machine (internal/signal/state_machine.go) makes transitions and mutations. The pipeline
-- engine (internal/core/pipeline.go) applies a mutation: it writes the Git store first, then
-- tells Bitable, and last updates the memory graph (internal/core/memory_graph.go), which
-- answers all queries and keeps the access statistics. Conflicts are judged by the resolver
-- (internal/core/conflict_resolver.go) from a language model's score. Calls of the model have a
-- circuit breaker, a recovery strategy (internal/llm/error_handling) and a token budget
-- (internal/llm/budget). Documents wait in a debounce tracker (internal/lark-adapter) until they
-- are quiet, and the recall (internal/recall) finds decisions by id, by words and by their hot
-- score. Messages pass the noise filter and are grouped into discussions
-- (internal/lark-adapter); the detector (internal/signal/detector.go) scores whether a message
-- or a document is a decision. The status updater (internal/signal/status_updater.go) moves
-- statuses on with the time, through the pipeline. The Git storage (internal/storage/git) keeps
-- a decision as a Markdown file with a YAML frontmatter and commits it by the git program, and
-- the periodic sync (internal/sync) reconciles Git with Bitable. The emitters
-- (internal/signal/emitter.go) turn what the adapters saw into signals. Agents ask the search
-- tool (internal/search), and the push engine (internal/push) sends cards of decisions into
-- chats.
--
-- Which module models what:
--   Prelude   lists, string-keyed maps, results, texts by code points, Boolean tests
--   Decision  internal/decision/{node,relation,objection}.go: the data of a decision (Types),
--             its constructors and methods (Node), what AddRelation and SetConflict do to the
--             edges (Edges)
--   Graph     internal/core/memory_graph.go: the maps, the writes and the load from Git (State),
--             the reads and the keyword search (Queries), access statistics, hot scores, dirty
--             marks and rankings (Access); the proofs by subject: Consistency, Calls (any
--             history of writes), Topics, Ranking, Search
--   Signal    internal/signal/{signal,state_machine,router}.go: Types, Texts (strings of the
--             constants), StateMachine and Transitions, Router and Plans, Ids and Uniqueness;
--             status_updater.go there: the rules (Updater) and their course (Settling);
--             detector.go there: Detector with its analysers (Lexical, Structural, Patterns,
--             AntiSignals, Documents), the scores (Details, Bounds), the analysis (Analysis)
--             and what it answers (Verdicts); emitter.go there: Emitter and Emitting;
--             engine.go there, the extracted decisions: Extracts (Filter, Merge, Merged)
--   Pipeline  internal/core/pipeline.go: the stores and the commit (Engine), one handler for
--             each type of mutation with its children, the batch and the validation (Handlers);
--             the proofs by subject: Actions and Consistency (the graph's invariant), Errors,
--             Effects with the document tokens (Tokens), Conflicts, Revert, Batches; a run of the
--             status updater (Updates) and what it does to a decision (Aging)
--   Conflict  internal/core/conflict_resolver.go: Resolver, Decisions
--   Llm       internal/llm/error_handling/{circuit_breaker,recovery}.go: Breaker and Breaking,
--             Recovery and Recovering; internal/llm/budget: Budget and Spending
--   Lark      internal/lark-adapter/debounce_tracker.go: the tracker (Debounce), a changed
--             document (Quiet) and a processed one (Once); message_batcher.go there: the cache
--             of messages and their grouping (Batcher, Caching, Grouping); noise_filter.go and
--             context_message.go there: Noise, the discussion groups and their contexts
--             (Discussions) and what the groups hold (Conservation)
--   Storage   internal/storage/git: the file format (Format, RoundTrip), the git program (Cli),
--             the paths and texts of commits (Names), the operations (Store, Listing), what is
--             asked of the git program (Laws), what a save and a checkout leave (Saving,
--             Arriving), and reads behind writes (ReadBack, OnBranch)
--   Sync      internal/sync/sync.go: both directions (Manager), the forward direction
--             (Forward)
--   Search    internal/search: the results and their ranking (Results), the tool with its cache
--             (Tool), its answers (Answers) and the cache (Cached)
--   Push      internal/push/push.go: the engine (Engine) and the cooldown (Cooldown)
--   Recall    internal/recall: the calculator (HotScore) and the graph's score (Decay), the
--             searches and lists (Engine) and what they answer (Answers)
--   Examples  concrete decisions, signals, a repository and scores, and each result at them
--
-- How the code is read. A struct is a record, a Go string type with named constants is a data
-- type whose last constructor is any other string, and a method that writes through its receiver
-- returns the new record. The graph's methods hold its mutex for their whole body, so a call is
-- one step and concurrent callers are an order of calls. A Go map is an association list in
-- which a write replaces the key's entry or puts a new one last; where the source ranges over a
-- map, whose order Go leaves open, the model has that list's order. The graph's maps hold
-- pointers: a decision that a handler changes through the graph is written back under its key.
-- The pointer that a caller keeps after an upsert is not followed further. The clock is an
-- argument, an instant a number of nanoseconds, or of seconds where the source keeps seconds
-- (the messages). A text is read by its code points; where the source cuts bytes, `size` and
-- `first_bytes` count the bytes of each point. A nil pointer is `none`; a type assertion that
-- panics is an outcome of its own.
--
-- What Go's library leaves open or takes from tables (the order of equal items in sort.Slice,
-- lower case, regular expressions, the layouts of the time package) is a parameter. The Git
-- store is the interface GitStorageInterface, a parameter; its answers are arbitrary, unless a
-- result names what it needs of them. Bitable's and the notifier's answers are only logged by
-- the source, so each is the list of calls made on it. Behind the Git storage itself stand a git
-- program, a file system and a YAML library, parameters with named laws where a result needs
-- them; the laws of git are asked of settled states alone, which Storage.Laws describes; the
-- storage is an implementation of the interface of the pipeline (Storage.Store). The sync's
-- Bitable may answer each call in any way. The model's client may fail, and may answer each call
-- for the same pair of decisions differently.
--
-- Numbers. Token budgets are 64-bit ints, with their wrap-around. Version, access, reference,
-- failure and id counters are ints that grow by one a call and are natural numbers here. The
-- router's weights are tenths, the detector's scores exact parts of a hundredth. A hot score is
-- an exact number in a unit in which the weights and the decay of a nanosecond are whole
-- numbers; the rounding of float64 is left out. The resolver's scores are a parameter with their
-- order. All loops run over lists and are structural recursion; the rounds of the exchange sort
-- are counted by the length of its list, as in the source.
--
-- Not modelled: the adapters' calls of Feishu, the decision flow of the signal engine, the
-- creation of a repository, Bitable's HTTP, the MCP and web-socket servers, prompts and cards,
-- the worker and its scheduling, the state file of the tracker. They are calls of the
-- language model, I/O, or text around the parts above.
pub mod Prelude
pub mod Decision
pub mod Graph
pub mod Signal
pub mod Pipeline
pub mod Conflict
pub mod Llm
pub mod Lark
pub mod Storage
pub mod Recall
pub mod Sync
pub mod Search
pub mod Push
pub mod Examples
