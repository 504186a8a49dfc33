-- ===== src/Lib.antt =====
-- rustice is a database server that speaks Snowflake's SQL: DataFusion plans and runs the
-- statements, an in-memory metastore keeps volumes, databases, schemas and tables, and an
-- execution service runs queries for sessions. This development models the metastore and its
-- configuration, the caches of catalogs, the execution service, names, session variables and the
-- DDL of statements, the sessions of the REST API, and some of the SQL functions.
--
-- The parts and their files:
-- * The metastore (crates/catalog-metastore/src/metastore.rs, error.rs, models/).
--   `Metastore.State` has the state of `InMemoryMetastore`: the four maps, the cache of object
--   stores, and as `written` what the object stores have received. A method is a function from a
--   state to a result and a state. `Metastore.Volumes`, `Metastore.Databases`, `Metastore.Tables`
--   and `Metastore.Updates` have the methods under the names of the code; `Metastore.Metadata` the
--   pure helpers of table creation (`max_field_id`, `convert_add_schema_update_to_lowercase`);
--   `Metastore.Models`, `Metastore.Requirements` and `Metastore.Volume` the models (`RwObject`,
--   `TableRequirementExt::assert`, `S3Volume`, `validate_bucket_name`); `Metastore.Error` the
--   errors. `Metastore.Calls` strings calls together. `Metastore.Catalog` is what the methods
--   promise, as four functions from identifiers to rows, and `Metastore.Refinement` holds the
--   methods against it.
-- * The configuration (crates/catalog-metastore/src/metastore_bootstrap_config.rs).
--   `Metastore.Bootstrap` has the configuration and `apply`, which calls the methods of the
--   metastore; `Metastore.PatchOperation` the patch of table metadata. `Reader` stands for the
--   object store, `serde_json` and `strip_prefix`.
-- * The catalogs (crates/catalog/src). `Catalog.Source` is the interface of the providers of other crates,
--   `Catalog.CachingSchema` and `Catalog.CachingCatalog` the caches of tables and schemas over them,
--   `Catalog.LazyCatalog`, `Catalog.CatalogList` and `Catalog.Refresh` are catalog_list.rs. A method takes the
--   cache with the world of its providers, and gives both back. What a method of another crate does in one
--   call is one step; in a refresh other tasks may act during each fetch.
-- * The execution service (crates/executor/src). `Executor.TaskResult` has query_task_result.rs
--   and error_code.rs, `Executor.RunningQueries` the registry of running_queries.rs,
--   `Executor.Sessions` the sessions of session.rs and service.rs, `Executor.Service` the query
--   methods of `CoreExecutionService`. The service calls the registry, whose entries name the
--   tasks. `Executor.Merge` has the stream of a MERGE (datafusion/physical_plan/merge.rs) over the
--   batches of another plan, `Executor.Times` the times and timestamps of
--   results as texts and structures (utils.rs), value by value, with `chrono` as a parameter.
-- * Statements (crates/executor/src/query.rs). `Query.Variables` has the variables of a session and USE,
--   `Query.Names` the resolution of names, `Query.Partition` PARTITION BY, `Query.Ddl` and `Query.Drop` CREATE
--   SCHEMA and DROP over the list of catalogs of `Catalog.CatalogList`. The plan that DataFusion makes of a
--   statement, or its error, is an argument, and what DataFusion does with a plan is a parameter; an expression
--   and a name of `sqlparser` have the forms that the code looks at.
-- * The SQL functions (crates/functions/src/string-binary). `Functions.Substr` has substr.rs: the
--   computation of a substring, one turn of the loop over the rows, and the simplification of a
--   call on literals; `Functions.Insert` has insert.rs. `Functions.Arrays` has the insertion, the
--   removal and the slice of JSON arrays (crates/functions/src/semi-structured/array),
--   `Functions.Arrays.Sets` the functions that compare items. The Arrow arrays around them are not
--   modelled.
-- * FLATTEN (crates/functions/src/table/flatten, crates/functions/src/json.rs). `Functions.Json`
--   has the values of `serde_json`; `Functions.Paths` `tokenize_path`, `get_json_value` and
--   `path_to_string`; `Functions.Flatten` the recursive flattening and the loop over the input
--   arrays, with the rows in place of the builders.
-- * The sessions of the REST API (crates/api-snowflake-rest-sessions/src). `Rest.Headers` has what
--   is read from headers and cookies, `Rest.Spcs` the ingress headers and callers' tokens,
--   `Rest.Session` the extraction of a session from a request, which calls the sessions of
--   `Executor.Sessions`, and `Rest.Layer` the layer before it (`propagate_session_cookie`).
--   `Server` and `Ingress` stand for `jsonwebtoken`, the hash and the environment.
-- * `Prelude` has what they share: association lists for `HashMap` and `DashMap`, texts, tests.
--
-- How the code is read:
-- * Code of other crates is a parameter, `Metastore.External.External`: object stores and their
--   builder, iceberg metadata, Unicode lower case. What one call gets from the clock, from
--   `Uuid::new_v4`, from the file system and from the network is the argument `World`. Of the
--   execution service, `code_of` stands for the translation of errors to codes
--   (crates/executor/src/snowflake_error.rs).
-- * A method of the metastore holds the state's lock from its first access to its last, so it is
--   one step. `blocked` is the result of a method that waits for the lock which it holds itself.
-- * An await of the execution service that does not resolve is `pending`. The steps of a query
--   (its submission, the end of its task, the discard of its result, waits and aborts) are
--   functions that may follow one another in any order; `Executor.Service.spawn` comes apart from
--   the test of the limit where submissions interleave.
-- * Times are natural numbers, in the code's unit. Ids of queries, tasks and snapshots are
--   numbers. The counts of 64-bit and 32-bit integers stay far below their bounds and are not
--   wrapped. The ids of schema fields are natural numbers; the code's `i32` would let them be
--   negative.
-- * Timestamps are integers of any size; the cast of a fraction to 32 bits is written out, and the
--   sums and products of 64 bits around it stay within the timestamp that they come from.
-- * All recursion is structural: over lists, over the fields of a schema, over the ticks of
--   `timeout_signal`, over JSON values. Only the loop of `tokenize_path` is on fuel: the length of
--   the path, which is enough because each round takes a character at least
--   (`Functions.Paths.Fuel`). The digits of an index are written and read on fuel within
--   `Prelude`.
--
-- Not modelled: the statements that become plans of DataFusion, MERGE, COPY INTO, SHOW and ALTER TABLE
-- (crates/executor/src/query.rs), the other DataFusion extensions, the other SQL functions
-- (crates/functions), the scans of tables (crates/catalog), the information schema,
-- the routes of the REST interface (crates/api-snowflake-rest), the query history
-- (crates/queries), the state store (crates/state-store), the binaries, and of the modelled files:
-- uploads (`upload_data_to_table`), tracing, serialisation, the validation of
-- credentials by regular expressions, the reading of a configuration from a file or the
-- environment, the redaction of headers for logs, the parsing of the arguments of FLATTEN.
pub mod Prelude
pub mod Metastore
pub mod Catalog
pub mod Query
pub mod Executor
pub mod Functions
pub mod Rest
