-- ===== src/Lib.antt =====
-- glyff, a library that records the calls of asynchronous functions so that an interrupted run can
-- be resumed: a call that has completed gives its recorded result, and is not run again.
--
-- The parts, in the order in which they use each other, and the code that each is about. Paths
-- below are in packages/glyff/src/glyff unless they say otherwise.
--   Types      _types: the value objects of an identity; Types/Checks has what their constructors
--              accept.
--   Json       the JSON data model, and `json` and `hashlib` of the standard library as a
--              parameter, `Platform`, with what their documentation says as `IsStandard`.
--   Arguments  _canonical_arguments.py and _types/canonical.py: CanonicalArguments.
--   Execution  _execution.py: the aggregate. Execution/Snapshot is ExecutionSnapshot of
--              store/staging.py.
--   Staging    store/staging.py: ExecutionStage, _StageRegistry and ExecutionStaging.
--   Text, Path store/utils.py: execution_id_to_path and path_to_execution_id. Text has the parts of
--              the standard library that they use: quote, unquote, int, str, partition, split.
--   Backend    _interfaces.py: the operations of a backend, as a record, and the contract that they
--              keep over a view of what the store holds.
--   Store      the transactions and the repository that backends have in common, in the spelling
--              of store/_memory.py, over a client. Store/Refines is about the contract.
--   Memory     store/_memory_client.py, and the rest of store/_memory.py.
--   Sequencer  _sequencer.py: the ordinals of calls.
--   Session    _session.py, and ExecutionTracer and TransactionScope of _context.py; Session/Claims
--              is DomainClaims of _domain_claims.py.
--   Events     _event_system.py and events.py.
--   Executor   _executor.py: one call. The lemmas on it take any backend with its contract.
--              Executor/Balance has the invariant of nested calls.
--   Accessor   MetadataAccessor of _context.py: `attach` is its `set`, `read_metadata` its `get`.
--   Function, Domain   _function.py and _domain.py: what a function is engraved as, and a call of an
--              engraved function.
--   Migration  migration/_models.py (Session) and migration/_migrator.py: Rules has shapes and
--              transitions, Runner is _ExecutionMigrationRunner, Chain is DomainMigration.
--              Runner/Below counts the records below a record, Runner/Weights and Runner/Rounds bound
--              the rounds of _rebuild, Runner/Covering, Runner/Contents, Runner/Origins and
--              Runner/Kept are about what it rebuilds.
--   Codec      store/aggregate_codec.py; the text functions of the standard library are `JsonText`.
--   Sqlite     packages/glyff-sqlite/src/glyff_sqlite: Rows, Statements, Transaction and Client are
--              SQLiteClient: its reads, the texts that sqlite3 binds, the transaction around a
--              write, over the state of a connection, and its writes. Options is what it is made
--              with, Repository is _sqlite_store.py, Migrating is _sqlite_migration.py. Atomic is
--              about run_immediate.
--   Files      packages/glyff-file-store/src/glyff_file_store: Document, Update and
--              Client are FileClient: the bytes of the file and the document that they are read
--              as, the write primitive, and commits and claims. Files/Repository is _store.py,
--              Files/Migrating is _file_migration.py. Commits is about the loop of a commit, and
--              Replacing about the file that it leaves. Store/Applied says what a
--              commit does to the records of either store.
--   Prelude, Dict, Result, Exec are shared: names of the libraries, a dict as an association list
--   in insertion order, errors as values, and methods over the state that they mutate. What a
--   method has written before it raises stays written.
--   Tests      concrete values, and the theorems applied to them.
--
-- How the state corresponds. Text is a list of code points, bytes are a list of numbers below 256.
-- Objects that are shared and mutated, that is stages and transactions, stand on a heap and are
-- named by numbers; the ContextVar that holds the open stage is the field `open_stage` of
-- `ExecutionStaging`. `Context` has what a session mutates: the store, the sequencer, the observed
-- domain versions, and the call stack. A float is given by the bits of its binary64 spelling. An
-- asynchronous generator is the list of what it yields.
--
-- One task is modelled: the locks are those that its calls would take in turn, and are never waited
-- for. The body of a call is any action over the context, so nested calls are included.
--
-- Recursion is structural but for these, which take fuel. `digits_of` has one more than the number,
-- and a number has no more digits than that. The loop of _rebuild has a round for each record of the
-- session and one for the root: each record is put on the stack once, by the record above it. The
-- loop of DomainMigration.migrate has two more than there are transitions, since it leaves no version
-- twice; the check for cycles has one more, since every chain of transitions ends. Where fuel runs
-- out the result is `none`, and the results below show that it does not.
--
-- What fails in a store. Each statement of a SQLite write binds its texts as UTF-8 first, where a
-- lone surrogate raises. What SQLite answers to BEGIN IMMEDIATE (with connecting), to a statement,
-- by its texts, to COMMIT and to ROLLBACK is the parameter `Engine`; closing a connection drops the
-- transaction that is open on it. A statement that SQLite carries out does to the rows, which are
-- under their primary keys, what SQL says of it. json.loads and json.dumps at the document of a
-- file store, and the replacement of the file by a temporary one, are the parameter `DocumentFile`;
-- each may fail, as may UTF-8 in both directions.
--
-- Not modelled: what `inspect` reads of a function and the canonicalizer of arguments, which are
-- parameters, direct SQL access, a file that is there and cannot be opened, leftover temporary files,
-- locks, the serializers, threads, and the kit that tests backends. The texts of a SQLite query are
-- taken to be encodable. `int` is read for ASCII digits and spaces only: no other spelling is
-- canonical; the limit of 4300 digits on `int` and `str` is left out. `loads` of JsonText has one
-- answer, none, for text that is no JSON and for an integer beyond that limit.
pub mod Prelude
pub mod Dict
pub mod Types
pub mod Result
pub mod Exec
pub mod Json
pub mod Arguments
pub mod Execution
pub mod Staging
pub mod Backend
pub mod Text
pub mod Path
pub mod Memory
pub mod Sequencer
pub mod Session
pub mod Events
pub mod Executor
pub mod Accessor
pub mod Codec
pub mod Sqlite
pub mod Files
pub mod Function
pub mod Domain
pub mod Migration
pub mod Store
pub mod Tests
