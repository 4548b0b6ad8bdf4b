-- ===== src/Lib.antt =====
-- Lattik Studio: the SQL expression language of packages/lattik-expression, and of apps/web the commit
-- protocol and the garbage collection of Lattik Tables and the scheduler, runner and reconciler of
-- pipelines.
--
-- The package of expressions turns the text of an expression into a syntax tree and gives every
-- node of it a type. Its parts stand in a row: the lexer makes tokens of the text, the parser makes
-- a tree of the tokens (and keeps recent results in a cache), the checker walks the tree with a
-- schema of columns and functions in scope, and the emitter prints a tree as text. The commit API
-- and the collection share the table of commits and the object store: what the one commits, the
-- other must not delete. The reconciler keeps the table of pipelines, the scheduler queues and
-- starts their runs, and the runner takes a started run's tasks in the order of their dependencies;
-- the last two write the table of runs.
--
-- * Expression/DataTypes.antt models packages/lattik-expression/src/ast/data-types.ts:
--   `isNumeric`, `isComparable`, `promoteNumeric`, `commonType`, `fromColumnType`. Its laws stand
--   in Expression/DataTypes/Laws.antt.
-- * Expression/Nodes.antt models packages/lattik-expression/src/ast/nodes.ts.
-- * Expression/Lexer models packages/lattik-expression/src/parser/lexer.ts. Lexer/Kinds has the
--   tables `KEYWORDS` and `TYPE_KEYWORDS`; Lexer/Scan has `tokenize`, one function for each branch
--   of its loop; Lexer/Positions, Operators, Rounds and Total have the proofs.
-- * Expression/Parser models packages/lattik-expression/src/parser/parse.ts. Parser/State has the
--   fields and the small methods of the class Parser, Parser/Chain the loops over left-associative
--   operators, Parser/Levels a function for each level of precedence, Parser/Clauses, Windows and
--   Calls the other productions, Parser/Parse the function `parse` with its cache. Parser/Steps,
--   Rules and Total show that each production ends, Parser/Laws what `parse` promises.
-- * Expression/Checker models packages/lattik-expression/src/checker/check.ts and schema.ts, and
--   `walkExpr` of packages/lattik-expression/src/ast/visitor.ts. Checker/Functions is the table of
--   built-in functions, Checker/Columns the index of columns and `resolveColumn`, Checker/Attach a
--   function for each of `inferColumnRef`, `inferBinary`, `inferUnary`, `inferCase` and
--   `inferFunction`, Checker/Aggregates that for `inferAggregate`, Checker/Infer the walk.
--   Checker/Again and Checker/Typed have the proofs.
-- * Expression/Emitter models packages/lattik-expression/src/emitter/emit-sql.ts. Emitter/Strings shows
--   that the lexer reads printed string literals, Emitter/Examples has printed expressions.
-- * Expression/Examples applies the theorems to concrete inputs.
-- * TableCommit models apps/web/src/app/api/lattik/commit/route.ts, through which batch writers commit
--   loads to a table: each commit names the base version it builds on, and the primary key of the
--   table of commits lets one writer win a version. TableCommit/Store has the rows of
--   packages/db-schema/src/index.ts, the manifests of the object store and the queries;
--   TableCommit/Commit has `POST` in three parts: `plan` (the lookups and the base manifest), the
--   put of the new manifest, and `settle` (the transaction and its reply). TableCommit/Writers has
--   the steps by which several writers run these parts in any order; TableCommit/Read has `GET` with
--   mode=ds. TableCommit/Rows, Manifests, Replies, Outcome and Entries have the proofs,
--   TableCommit/Examples the concrete runs.
-- * TableGc models apps/web/src/app/api/lattik/gc/route.ts, which deletes the objects of loads that no
--   commit of TableCommit refers to. TableGc/Collect has `gcOneTable`, from the commits, the
--   manifests as far as they can be read and the listing of the objects to the keys that it deletes;
--   TableGc/Buckets and TableGc/Safety the proofs, TableGc/Examples a concrete listing.
-- * Pipeline/Topology models `topoSort` of apps/web/src/lib/dag-topology.ts: the two maps that its
--   first loop fills, and the loop over the queue. Topology/Count has occurrences in lists,
--   Topology/Relax one round of the loop, Topology/Edges the maps, Topology/Order the invariant
--   between rounds, Topology/Laws and Topology/Promise what the sort promises.
-- * Pipeline/Attempts and Pipeline/Runs have the rows of packages/db-schema/src/index.ts (`dags`,
--   `dagRuns`, `taskAttempts`) and the queries of the runner on them.
-- * Pipeline/Durations models the rest of dag-topology.ts. Pipeline/Runner models
--   apps/web/src/workflows/dag-runner.ts, its outcomes in Pipeline/Outcomes: `run_task_with_deps`,
--   `run_one_task` and `dag_runner` are `runTaskWithDeps`, `runOneTask` and `dagRunner`.
--   Runner/Statuses, Safety and Again have the statuses of a run, Runner/Rows, Table and Loading the
--   rows it leaves and a later execution that starts from them, Runner/Verdict its end.
-- * Pipeline/Enqueueing, Dispatching, Orphans and Scheduler model apps/web/src/lib/dag-scheduler.ts:
--   `enqueueMissedRuns`, `dispatchQueued`, `reconcileOrphanedRuns` and `runSchedulerTick`.
--   Scheduler/Moments, Enqueue, Resume, Dispatch and Orphans have the proofs. Pipeline/Examples and
--   Scheduler/Examples have concrete runs.
-- * Pipeline/Reconciler models apps/web/src/lib/dag-reconciler.ts: `reconcileDags` and `archiveBranch`.
--   Reconciler/Laws, Kept, Steps and Promise have the proofs, Reconciler/Examples a manifest with an
--   error.
-- * Prelude has the names that all share: tests and lists on the native numbers, texts, and maps with
--   texts as keys.
--
-- How the code is read:
-- * A text is the list of its UTF-16 code units. `toUpperCase` and `toLowerCase` change the ASCII
--   letters only; the words of the language and the names that the lexer accepts unquoted are
--   ASCII.
-- * The methods of the lexer and the parser change fields; here they take a state and return one.
--   The tokens before the position of the parser are dropped from its state, but for the previous
--   one, which `previous` reads.
-- * A message is a constructor with the values that the source puts into the string.
-- * A number in a literal keeps the text of its token; `infer` does not read it.
-- * The checker changes the types of the nodes in place; here it returns the changed tree, and the
--   errors in the order in which the source pushes them.
-- * The map of parsed results is a list of pairs in the order of insertion, as JavaScript keeps it.
-- * The database is the list of rows of its two tables, a new commit in front. A query with a limit
--   and no order takes the first row in the list. Each statement of the transaction does what its
--   keys and its conflict clause say; a transaction is one step.
-- * The object store gives for a name the manifest put there last. A manifest's key is its table, its
--   version and its load: no two of these triples give one key, since a version has no underscore.
--   In `post` what the store answers is a parameter; in the steps of several writers it is read from
--   the manifests put so far.
-- * What the collection reads of a manifest is a parameter, as is the listing; a key is counted from
--   the length of its prefix. Times are whole milliseconds, and the age asked for is what `parseInt`
--   gives: a whole number of either sign, or none.
-- * A `Map` or object with texts as keys is the list of its entries in the order of insertion.
-- * The tasks of a run are run one after the other in the sorted order: a task waits for its
--   dependencies only, and its statements write rows of its own. What the sandboxes answer, the cron
--   parser, the bundle store, the workflow runtime and `toISOString` are parameters; an error that one
--   of them throws is an answer. Errors of the database itself are left out, but for the update that
--   links a run to its workflow. All times of one call are one time.
-- * A count of dependencies that would fall below zero stays at zero; it is not queued either way.
-- * A JSON object is a list of its keys and values in order. In the object of
--   loads that a read of a day fills, the members that an object inherits are found as they are in
--   JavaScript, and an assignment to `__proto__` sets the prototype; in other objects inherited members
--   are left out.
-- * An integer column is a number with no bound: the database raises an error where a value does not
--   fit, and wraps none.
-- * An interval of the cron parser has a state that `next` and `prev` move; the type of the states and
--   what the parser does are parameters. What two calls enqueue one after the other takes as a
--   hypothesis that an interval parsed at a moment that one of the schedule's intervals gave goes on
--   as that one does. A schedule that cannot be parsed is an error that ends the call and the tick.
--
-- Fuel: the loop of the lexer takes a unit for each code unit of the input, since each round passes
-- at least one. The parser takes a unit for each token, since each nested expression and each round
-- of a loop passes at least one. Both are shown to be enough, so neither runs out. The loop
-- of `topoSort` takes a unit for each entry of its counts, since a round takes a task off the queue
-- and no task is queued twice; this too is shown. The fuel of the enumeration of due moments is the
-- cap of the source, which may cut it off.
--
-- Not modelled: `mapExpr` (packages/lattik-expression/src/ast/visitor.ts); the call stack, which a
-- deep run of NOT can exhaust; of the commit API the authorization, the tests of the parameters and
-- the body, and mode=wall_time; of the collection the tests of the parameters; of the runner the
-- sandboxes (apps/web/src/workflows/dag-task-steps.ts but for `recordAttempt`) and the hooks; of the
-- scheduler the counts that it reports; of the reconciler the fetching and parsing of a pipeline's
-- text; the other applications of the repository.
pub mod Prelude
pub mod Expression
pub mod TableCommit
pub mod TableGc
pub mod Pipeline
