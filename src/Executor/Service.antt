-- ===== src/Executor/Service.antt =====
-- The query methods of `CoreExecutionService` (crates/executor/src/service.rs): submission, the task
-- that runs a query, waiting, aborting, and the discarding of results that nobody fetched.
use rustice.Prelude.{
  ℕ, ◌+◌, Bool, true, false, Option, none, some, Text, text_eq, nat_eq, List, [], ◌∷◌, leb,
  if◌then◌else◌,
}
use rustice.Prelude.HashMap.{HashMap, get, insert}
use rustice.Executor.TaskResult.{
  QueryId, ExecutionStatus, Error, ErrorCode, Result, ok, err, ExecutionTaskResult, Ending,
  execution_result, from_query_limit_exceeded, no_join_handle, async_result_task_join,
}
use rustice.Executor.RunningQueries.{
  Registry, new_registry, new_query, with_request_id, with_result_handle, with_cancellation_token,
  add, remove_query, abort_query, notify_query_finished, running, count,
}
use rustice.Executor.Sessions.{Sessions, get_session}

-- The outer task of a query: it runs, or it has returned, or it has panicked.
pub data Task (R : Type 0) : Type 0 where
  started : QueryId → Task R
  returned : Result R → Task R
  panicked : Task R

-- `discards` are the queries whose tasks wait to discard their results.
pub record Service (R : Type 0) : Type 0 where
  pub sessions : Sessions
  pub max_concurrency_level : ℕ
  pub registry : Registry
  pub tasks : HashMap ℕ (Task R)
  pub next_task : ℕ
  pub discards : List QueryId

-- What a caller has that waits: an answer, or nothing yet.
pub data Poll (A : Type 0) : Type 0 where
  ready : A → Poll A
  pending : Poll A

unfoldable pub init : {R : Type 0} → Sessions → ℕ → Service R
init sessions level = record {
  sessions = sessions;
  max_concurrency_level = level;
  registry = new_registry;
  tasks = [];
  next_task = 0;
  discards = [];
}

-- `self.queries.wait_query_finished(query_id).await?; Ok(())` of `abort`.
poll_finished : QueryId → Registry → Poll (Result (Unit {0}))
poll_finished q registry = elim (running q registry) [
  | err e ↦ ready (err e)
  | ok query ↦ elim query.status [ none ↦ pending | some status ↦ ready (ok tt) ]
]

module _ {R : Type 0} where
  -- The test of `submit` against the limit.
  unfoldable pub admits : Service R → Bool
  admits s = if leb s.max_concurrency_level (count s.registry) then false else true

  -- The rest of `submit`: the task is spawned and the query is registered, and then the task starts.
  unfoldable pub spawn : QueryId → Option ℕ → Service R → Service R
  spawn q request_id s = record s {
    registry =
        add
          (with_cancellation_token
            (with_result_handle s.next_task (with_request_id request_id (new_query q))))
          s.registry;
    tasks = insert s.next_task (started q) s.tasks;
    next_task = s.next_task + 1;
  }

  limit_exceeded_result : QueryId → Result R → Result QueryId
  limit_exceeded_result q (ok r) = ok q
  limit_exceeded_result q (err e) = err e

  unfoldable pub submit : Text → QueryId → Option ℕ → Service R → Result QueryId × Service R
  unfolding limit_exceeded_result
  submit session_id q request_id s = elim (get_session session_id s.sessions) [
    | err e ↦ (err e, s)
    | ok session ↦
        if admits s
        then (ok q, spawn q request_id s)
        else (limit_exceeded_result q (from_query_limit_exceeded {R = R} q).result, s)
  ]

  -- The outer task gets to the end of its `select!`: it notifies the registry, schedules the discard
  -- and returns the result; if the registry has lost the query, it returns that error and no more.
  after_notice :
      ℕ → QueryId → ExecutionTaskResult R → Result (Unit {0}) × Registry → Service R → Service R
  after_notice task q outcome (ok u, registry) s = record s {
    registry = registry;
    tasks = insert task (returned outcome.result) s.tasks;
    discards = q ∷ s.discards;
  }
  after_notice task q outcome (err e, registry) s = record s {
    registry = registry;
    tasks = insert task (returned (err e)) s.tasks;
  }

  end_task : (Error → ErrorCode) → ℕ → QueryId → Ending R → Service R → Service R
  end_task code_of task q ending s =
      let outcome = execution_result code_of q ending in
      after_notice task q outcome (notify_query_finished q outcome.execution_status s.registry) s

  -- The end of the task with this number, if it runs.
  unfoldable pub finish : (Error → ErrorCode) → ℕ → Ending R → Service R → Service R
  unfolding after_notice end_task
  finish code_of task ending s = elim (get task s.tasks) [
    | none ↦ s
    | some t ↦ elim t [
      | started q ↦ end_task code_of task q ending s
      | returned r ↦ s
      | panicked ↦ s
    ]
  ]

  -- `TIMEOUT_DISCARD_INTERVAL_SECONDS` after a query's end its result is discarded.
  unfoldable pub discard : QueryId → Service R → Service R
  discard q s = record s { registry = (remove_query q s.registry).1 }

  -- `result_handle.await` of a query that has left the registry.
  join_handle : QueryId → Option ℕ → Service R → Poll (Result R)
  join_handle q none s = ready (err (no_join_handle q))
  join_handle q (some task) s = elim (get task s.tasks) [
    | none ↦ pending
    | some t ↦ elim t [
      | started q' ↦ pending
      | returned r ↦ ready r
      | panicked ↦ ready (err (async_result_task_join q))
    ]
  ]

  -- `wait` where the query has been notified, or not yet.
  wait_for : QueryId → Option ExecutionStatus → Option ℕ → Service R → Poll (Result R) × Service R
  wait_for q none handle s = (pending, s)
  wait_for q (some status) handle s =
      (join_handle q handle s, record s { registry = (remove_query q s.registry).1 })

  unfoldable pub wait : QueryId → Service R → Poll (Result R) × Service R
  unfolding wait_for join_handle
  wait q s = elim (running q s.registry) [
    | err e ↦ (ready (err e), s)
    | ok query ↦ wait_for q query.status query.result_handle s
  ]

  after_abort :
      QueryId → Result (Unit {0}) × Registry → Service R → Poll (Result (Unit {0})) × Service R
  after_abort q (err e, registry) s = (ready (err e), record s { registry = registry })
  after_abort q (ok u, registry) s = (poll_finished q registry, record s { registry = registry })

  unfoldable pub abort : QueryId → Service R → Poll (Result (Unit {0})) × Service R
  unfolding after_abort poll_finished
  abort q s = after_abort q (abort_query q s.registry) s
