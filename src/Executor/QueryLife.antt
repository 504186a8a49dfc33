-- ===== src/Executor/QueryLife.antt =====
-- The life of a query in the execution service (crates/executor/src/service.rs,
-- running_queries.rs): submitted, ended, waited for, aborted, discarded.
use rustice.Prelude.{
  ℕ, false, ◌≡◌, refl, Option, none, some, Text, text_eq, nat_eq, nat_beq, arith, if◌then◌else◌, ap,
}
use rustice.Prelude.HashMap.{get, get-insert, get-remove}
use rustice.Executor.TaskResult.{
  QueryId, Error, ErrorCode, ExecutionStatus, Result, ok, err, Ending, execution_result,
  query_isnt_running, from_query_limit_exceeded,
}
use rustice.Executor.RunningQueries.{
  RunningQuery, add, new_query, with_request_id, with_result_handle, with_cancellation_token,
  cancel, notify, change, remove_query, abort_query, notify_query_finished, running,
}
use rustice.Executor.Service.{
  Service, Task, started, returned, ready, pending, submit, spawn, finish, discard, wait, abort,
}

-- What `submit` registers.
abbrev registered : QueryId → Option ℕ → ℕ → RunningQuery
registered q request_id task = record {
  query_id = q;
  request_id = request_id;
  result_handle = some task;
  cancelled = false;
  status = none;
  query_stats = record { query_type = none };
}

module _ {R : Type 0} (s : Service R) (q : QueryId) where
  pub submit-eq_spawn :
      (session_id : Text) (request_id : Option ℕ)
      → (submit session_id q request_id s).0 ≡ ok q
      → (submit session_id q request_id s).1 ≡ spawn q request_id s
  unfolding submit from_query_limit_exceeded
  submit-eq_spawn session_id request_id e = ground arith

  get-spawn :
      (request_id : Option ℕ)
      → (get q (spawn q request_id s).registry.queries ≡ some (registered q request_id s.next_task))
        × (get s.next_task (spawn q request_id s).tasks ≡ some (started q))
  unfolding spawn add new_query with_request_id with_result_handle with_cancellation_token
  get-spawn request_id = (
    ground (arith, get-insert q q (registered q request_id s.next_task) s.registry.queries),
    ground (arith, get-insert {V = Task R} s.next_task s.next_task (started q) s.tasks),
  )

  get-finish :
      (code_of : Error → ErrorCode) (task : ℕ) (ending : Ending R) (query : RunningQuery)
      → get task s.tasks ≡ some (started q)
      → get q s.registry.queries ≡ some query
      → let outcome = execution_result code_of q ending in
        (get q (finish code_of task ending s).registry.queries
          ≡ some (notify outcome.execution_status query))
        × (get task (finish code_of task ending s).tasks ≡ some (returned outcome.result))
  unfolding finish notify_query_finished change
  get-finish code_of task ending query runs there =
      let outcome = execution_result code_of q ending in
      (
        ground (
          arith,
          runs,
          there,
          get-insert q q (notify outcome.execution_status query) s.registry.queries,
        ),
        ground (
          arith,
          runs,
          there,
          get-insert {V = Task R} task task (returned outcome.result) s.tasks,
        ),
      )

  wait_returned :
      (query : RunningQuery) (status : ExecutionStatus) (task : ℕ) (r : Result R)
      → get q s.registry.queries ≡ some query
      → query.status ≡ some status
      → query.result_handle ≡ some task
      → get task s.tasks ≡ some (returned r)
      → ((wait q s).0 ≡ ready r) × (get q (wait q s).1.registry.queries ≡ none)
  unfolding wait running remove_query
  wait_returned query status task r there noticed handle returns = (
    ground (arith, there, noticed, handle, returns),
    ground (arith, there, noticed, handle, returns, get-remove q q s.registry.queries),
  )

  wait_absent : get q s.registry.queries ≡ none → wait q s ≡ (ready (err (query_isnt_running q)), s)
  unfolding wait running
  wait_absent gone = ground (arith, gone)

module _ {R : Type 0} (code_of : Error → ErrorCode) (s : Service R) (q : QueryId) where
  finished_query :
      (session_id : Text) (request_id : Option ℕ) (ending : Ending R)
      → (submit session_id q request_id s).0 ≡ ok q
      → let t = finish code_of s.next_task ending (submit session_id q request_id s).1 in
        let outcome = execution_result code_of q ending in
        (get q t.registry.queries
          ≡ some (notify outcome.execution_status (registered q request_id s.next_task)))
        × (get s.next_task t.tasks ≡ some (returned outcome.result))
  finished_query session_id request_id ending e =
      let spawned = get-spawn s q request_id in
      rw (submit-eq_spawn s q session_id request_id e)
        (get-finish (spawn q request_id s) q code_of s.next_task ending _ spawned.1 spawned.0)

  -- After a query has been submitted and its task has come to an end of any kind, `wait` answers the
  -- result of that end, and the query is running no more: the next `wait` is an error.
  pub wait-finish-submit :
      (session_id : Text) (request_id : Option ℕ) (ending : Ending R)
      → (submit session_id q request_id s).0 ≡ ok q
      → let t = finish code_of s.next_task ending (submit session_id q request_id s).1 in
        ((wait q t).0 ≡ ready (execution_result code_of q ending).result)
        × ((wait q (wait q t).1).0 ≡ ready (err (query_isnt_running q)))
  unfolding notify
  wait-finish-submit session_id request_id ending e =
      let t = finish code_of s.next_task ending (submit session_id q request_id s).1 in
      let facts = finished_query session_id request_id ending e in
      let answer =
        wait_returned t q _ (execution_result code_of q ending).execution_status s.next_task
          (execution_result code_of q ending).result facts.0 refl refl facts.1 in
      (answer.0, ap (λ p. p.0) (wait_absent (wait q t).1 q answer.1))

module _ {R : Type 0} (s : Service R) (q : QueryId) where
  -- Until its task ends, a submitted query keeps its waiters waiting, and `wait` changes nothing.
  pub wait-submit :
      (session_id : Text) (request_id : Option ℕ)
      → (submit session_id q request_id s).0 ≡ ok q
      → let t = (submit session_id q request_id s).1 in wait q t ≡ (pending, t)
  unfolding wait running
  wait-submit session_id request_id e =
      rw (submit-eq_spawn s q session_id request_id e) (ground (arith, get-spawn s q request_id))

  -- Once the discarder has run, the result of a query is no longer to be had.
  pub wait-discard : (wait q (discard q s)).0 ≡ ready (err (query_isnt_running q))
  unfolding discard remove_query wait running
  wait-discard = ground (arith, get-remove q q s.registry.queries)

  -- `abort` of a query that runs sets its token, leaves the caller waiting for the task's end, and
  -- leaves every other query and every task as it was.
  abort_running :
      (query : RunningQuery) (other : QueryId)
      → get q s.registry.queries ≡ some query
      → query.status ≡ none
      → ((abort q s).0 ≡ pending)
        × (get other (abort q s).1.registry.queries
            ≡ (if nat_beq q other then some (cancel query) else get other s.registry.queries))
        × ((abort q s).1.tasks ≡ s.tasks)
  unfolding abort abort_query change running cancel
  abort_running query other there unnoticed = (
    ground (arith, there, unnoticed, get-insert q q (cancel query) s.registry.queries),
    ground (arith, there, unnoticed, get-insert q other (cancel query) s.registry.queries),
    ground (arith, there, unnoticed),
  )
