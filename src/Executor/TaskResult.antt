-- ===== src/Executor/TaskResult.antt =====
-- crates/executor/src/query_task_result.rs, error_code.rs, and the statuses of query_types.rs and
-- errors of error.rs that they use: how the ends of a query's task become a result, a status, a code.
use rustice.Prelude.{ℕ, Bool, true, false, Option, none, some, Text}

abbrev pub QueryId : Type 0
QueryId = ℕ

pub data ExecutionStatus : Type 0 where
  running success fail incident : ExecutionStatus

pub data Entity : Type 0 where
  database schema table : Entity

pub data OperationType : Type 0 where
  create alter drop show unknown : OperationType

pub data OperationOn : Type 0 where
  on_database on_schema on_table : OperationType → OperationOn
  unknown : OperationOn

pub data ErrorCode : Type 0 where
  no_error db metastore object_store datafusion datafusion_embucket_fn : ErrorCode
  datafusion_embucket_fn_aggregate datafusion_embucket_fn_conversion : ErrorCode
  datafusion_embucket_fn_date_time datafusion_embucket_fn_numeric : ErrorCode
  datafusion_embucket_fn_semi_structured datafusion_embucket_fn_string_binary : ErrorCode
  datafusion_embucket_fn_table datafusion_embucket_fn_crate datafusion_embucket_fn_regexp :
      ErrorCode
  datafusion_embucket_fn_system arrow catalog iceberg internal historical_query_error : ErrorCode
  data_fusion_sql_parse data_fusion_sql : ErrorCode
  entity_not_found : Entity → OperationOn → ErrorCode
  other unsupported_feature timeout cancelled limit_exceeded query_task : ErrorCode

-- `EntityNotFound(…)`: the entity and the operation in question.
entity_code : Entity → OperationOn → ℕ
entity_code Entity.table (on_table t) = 2003
entity_code Entity.schema (on_table t) = 2003
entity_code Entity.database (on_table t) = 2003
entity_code _ _ = 2043

-- `Display for ErrorCode`: the number that is shown, padded to six digits.
unfoldable pub display_code : ErrorCode → ℕ
unfolding entity_code
display_code unsupported_feature = 2
display_code timeout = 630
display_code cancelled = 684
display_code historical_query_error = 1001
display_code data_fusion_sql_parse = 1003
display_code data_fusion_sql = 2003
display_code (entity_not_found entity operation) = entity_code entity operation
display_code _ = 10001

-- The errors of the execution service; `other_error` stands for those of a statement's execution.
pub data Error : Type 0 where
  concurrency_limit query_timeout query_subtask_join : Error
  query_execution : QueryId → Error → Error
  query_isnt_running : QueryId → Error
  query_by_request_id_isnt_running : ℕ → Error
  query_cancelled : QueryId → Error
  execution_status_recv async_result_task_join no_join_handle : QueryId → Error
  missing_data_fusion_session : Text → Error
  other_error : Text → Error

pub data Result {ℓ} (A : Type ℓ) : Type ℓ where
  ok : A → Result A
  err : Error → Result A

pub record ExecutionTaskResult (R : Type 0) : Type 0 where
  pub result : Result R
  pub execution_status : ExecutionStatus
  pub error_code : Option ErrorCode

-- The ends of the `select!` in `submit`: the statement's own result, a panic of its task, the token,
-- the timeout.
pub data Ending (R : Type 0) : Type 0 where
  finished : Result R → Ending R
  task_failed cancelled_token timed_out : Ending R

module _ {R : Type 0} where
  -- `code_of` is `SnowflakeError::from_executor_error(err).error_code()`.
  from_query_result : (Error → ErrorCode) → QueryId → Result R → ExecutionTaskResult R
  from_query_result code_of q (ok r) = record {
    result = ok r;
    execution_status = success;
    error_code = none;
  }
  from_query_result code_of q (err e) = record {
    result = err (query_execution q e);
    execution_status = fail;
    error_code = some (code_of e);
  }

  unfoldable pub from_query_limit_exceeded : QueryId → ExecutionTaskResult R
  from_query_limit_exceeded q = record {
    result = err (query_execution q concurrency_limit);
    execution_status = incident;
    error_code = some limit_exceeded;
  }

  from_failed_query_task : QueryId → ExecutionTaskResult R
  from_failed_query_task q = record {
    result = err (query_execution q query_subtask_join);
    execution_status = incident;
    error_code = some query_task;
  }

  from_cancelled_query_task : QueryId → ExecutionTaskResult R
  from_cancelled_query_task q = record {
    result = err (query_execution q (query_cancelled q));
    execution_status = fail;
    error_code = some cancelled;
  }

  from_timeout_query_task : QueryId → ExecutionTaskResult R
  from_timeout_query_task q = record {
    result = err (query_execution q query_timeout);
    execution_status = fail;
    error_code = some timeout;
  }

  -- The arms of the `select!`.
  unfoldable pub execution_result : (Error → ErrorCode) → QueryId → Ending R → ExecutionTaskResult R
  unfolding from_query_result from_failed_query_task from_cancelled_query_task
      from_timeout_query_task
  execution_result code_of q (finished r) = from_query_result code_of q r
  execution_result code_of q task_failed = from_failed_query_task q
  execution_result code_of q cancelled_token = from_cancelled_query_task q
  execution_result code_of q timed_out = from_timeout_query_task q

-- `Error::is_query_cancelled` and `Error::is_query_timeout`, through the errors that wrap one.
unfoldable pub is_query_cancelled : Error → Bool
is_query_cancelled (query_execution q source) = is_query_cancelled source
is_query_cancelled (query_cancelled q) = true
is_query_cancelled _ = false

unfoldable pub is_query_timeout : Error → Bool
is_query_timeout (query_execution q source) = is_query_timeout source
is_query_timeout query_timeout = true
is_query_timeout _ = false
