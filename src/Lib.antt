-- ===== src/Lib.antt =====
-- OpenPraxis: a model of the stores that carry its state, with the theorems that make them correct.
--
-- The program keeps tasks, manifests, products and skills as entities in SQLite. The edges between
-- them (who owns what, what depends on what) are rows of one SCD-2 table: a write never overwrites
-- a version, it closes it and adds another, so that the graph of any past time can be read. When to
-- fire an entity is a row of a second SCD-2 table; a runner keeps the rows that are due to fire in
-- an in-memory cron, dispatches them, and counts their runs. How a task runs is set by knobs, whose
-- values a task inherits from its manifest, its product and the built-in defaults. Comments on an
-- entity carry its prompt, its notes and the reviews of a task. The entities themselves, their types
-- and their links to nodes are SCD-2 tables too, and so are the templates of the prompts, which a task
-- takes from the narrowest scope that has one. When a manifest or a product closes, a walk over its
-- dependents finds those that are free to start.
--
-- The parts, and the files that model them:
--   * Relationships: internal/relationships/store.go. Edge has the rows, the vocabulary and the
--     checks; Write has Create, BackfillRow, BackfillBulk and Remove; Read has ListOutgoing,
--     ListIncoming, their At and ForMany forms, History, Get and Health; Walk has Walk and WalkAt.
--     Scd, Effects, TimeTravel, PastWalks, Present, Batches, Levels, Rounds and Shortest hold
--     the theorems, Tests and ReadTests the runs at concrete inputs, on the graph of Fixtures.
--   * Schedules: internal/schedule. Schedule has the rows and their validation, Store the operations
--     of store.go, Runner those of runner.go. Ids, Lifecycle, Budget, Reload and Fire hold the
--     theorems, Tests the runs at concrete inputs.
--   * Settings: internal/settings. Store has the table of values by scope, Catalog the knobs and the
--     check of a value, Resolver the inheritance task → manifest → product → system. Keys, Agree,
--     Inherit and Stored hold the theorems, Tests the runs at concrete inputs.
--   * Comments: internal/comments and internal/task/review.go. Types has the taxonomy and the checks
--     of a request, Store the table of comments, Review the reviews of a task, which are comments.
--     Verdicts, Writes and Lists hold the theorems, Tests the runs at concrete inputs.
--   * Entities: internal/entity. Entity has the versions, Store the operations of store.go, Types those
--     of types_store.go and Nodes those of nodes.go. Replay has runs of the store and the map that they
--     stand for, Links the same for nodes; Writes, Past, Travel, TypeWrites and Seeding have lemmas;
--     Refines, TimeTravel, LinkRuns and SeedRuns hold the theorems with TypeWrites, Tests and TypeTests
--     the runs at concrete inputs.
--   * Templates: internal/templates. Template has the rows, Store the operations of store.go, Resolver
--     the walk task → manifest → product → agent → system, Seed the seeding of seed.go. Edits, Effects
--     and Seeding have lemmas, Actives, Revisions, Overrides and SeedRuns the theorems, Tests the runs
--     at concrete inputs.
--   * Tasks: internal/task/status.go in Status, manifest_activation.go and product_activation.go in
--     Propagate, the links and dependencies of repository.go in Linking. Machine, Fuel, Reach, Freed,
--     Closing, Links, Deps and DepWrites hold lemmas and theorems, Tests and LinkTests the runs at
--     concrete inputs.
--   * Memory: internal/memory/tiering.go. Tiering has the texts made of a memory, Bounds the theorem,
--     Tests a run.
--   * Actions: CheckForbiddenPatterns and containsWord of internal/action/polarity.go in Words. Found
--     has the lemmas, Forbidden the theorem, Tests the runs. The loop of containsWord runs on fuel,
--     one round more than the text has bytes, which is enough since each round moves on; out of fuel
--     is an outcome of its own.
--   * Prelude: tests, texts, integers, and tables with their SELECT, UPDATE and ORDER BY.
-- A definition has the name of its function in snake case: `create` is Store.Create.
--
-- How the code is read:
--   * A table is the list of its rows in the order of insertion. A SELECT without ORDER BY returns
--     the rows in that order; ORDER BY and sort.SliceStable are one stable sort. TEXT compares by
--     code points, as SQLite's BINARY collation does on UTF-8.
--   * A write takes the time that nowUTC reads and returns the table with the error, `none` where
--     Go returns nil. A transaction that fails leaves the table as it was. A call runs to its end
--     before the next one begins: the theorems are about such calls. Most writes are one
--     statement or one transaction; but Create of a template and AddNodeEntity are a SELECT and an
--     INSERT without a transaction or a lock, and no index refuses the second INSERT of two calls
--     whose SELECTs both come first. `insert_override` and `insert_link` are these
--     INSERTs on their own, and Templates/Tests and Entities/Tests run them in that order. The
--     seeding of a bucket of templates also reads before its transaction; LinkManifest and
--     writeSCDDepRow are several calls of the store of relationships, and when one fails, the writes
--     before it stay. An INSERT fails exactly on a primary key that is taken or a CHECK of the table;
--     other errors of the driver are not modelled, nor contexts and logging.
--   * Whether a text parses as RFC 3339 is a parameter, as it is Go's time.Parse that decides it.
--     The cron library and the parsing of times are the parameter CronLib of the runner, and the
--     order in which Go visits a map is a parameter of Reload.
--   * int and int64 are integers without bound: the depths, ids and counters that the code computes
--     with stay far below 2^63.
--   * A recursive query runs in rounds, and its fuel counts them: max_depth + 1 rounds, since the
--     rows of round d have depth d and the query joins only rows below max_depth.
--   * encoding/json and float64 are the parameter JsonLib of the settings, with laws (JsonLaws) where
--     a theorem relies on them. The catalog is an argument, so a theorem holds for any list of knobs.
--   * The walk over dependents takes the lookups of its caller as arguments, and fuel that counts the
--     ids it takes from the queue; an id enters the queue once, so the number of ids and one more
--     rounds are enough.
--   * A text of a memory is the list of its bytes, and strings.TrimSpace is a parameter. SQLite's LIKE
--     and TrimSpace are parameters of the search for entities. The tags of an entity are a list, before
--     and after JSON. An INSERT also fails on a unique index over the current rows.
--   * A dispatcher changes a world of its own type and tells whether it failed.
--
-- Not modelled: the goroutine of Runner.Start, the migrations, and the parts around these stores
-- (the texts and the rendering of templates, attachments of comments, the store of actions, the task
-- runner and its scheduler over the retired tasks table, the vector index of memories, the web and
-- MCP servers, the command line), which are mostly I/O. Calls that write one database at once are not
-- modelled either, but for the two runs above.
pub mod Prelude
pub mod Actions
pub mod Comments
pub mod Entities
pub mod Memory
pub mod Relationships
pub mod Schedules
pub mod Settings
pub mod Tasks
pub mod Templates
