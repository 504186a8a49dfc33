-- ===== src/Executor/RunningQueries.antt =====
-- crates/executor/src/running_queries.rs: the registry of running queries.
use rustice.Prelude.{ℕ, Bool, true, false, Option, none, some, Text, nat_eq, length, []}
use rustice.Prelude.HashMap.{HashMap, get, insert, remove}
use rustice.Executor.TaskResult.{
  QueryId, ExecutionStatus, Result, ok, err, query_isnt_running, query_by_request_id_isnt_running,
}

-- The kind of the statement, as `QueryStats` keeps it.
pub record QueryStats : Type 0 where
  pub query_type : Option Text

-- `cancelled` is the state of the cancellation token, `status` the last value of the watch channel,
-- and `result_handle` names the task whose result is to be awaited.
pub record RunningQuery : Type 0 where
  pub query_id : QueryId
  pub request_id : Option ℕ
  pub result_handle : Option ℕ
  pub cancelled : Bool
  pub status : Option ExecutionStatus
  pub query_stats : QueryStats

pub data RunningQueryId : Type 0 where
  by_query_id : QueryId → RunningQueryId
  by_request_id : ℕ → Text → RunningQueryId

pub record Registry : Type 0 where
  pub queries : HashMap QueryId RunningQuery
  pub requests_ids : HashMap ℕ QueryId

-- `RunningQuery::new`
unfoldable pub new_query : QueryId → RunningQuery
new_query q = record {
  query_id = q;
  request_id = none;
  result_handle = none;
  cancelled = false;
  status = none;
  query_stats = record { query_type = none };
}

unfoldable pub with_request_id : Option ℕ → RunningQuery → RunningQuery
with_request_id r q = record q { request_id = r }

unfoldable pub with_result_handle : ℕ → RunningQuery → RunningQuery
with_result_handle h q = record q { result_handle = some h }

-- `with_cancellation_token`: the token is fresh.
unfoldable pub with_cancellation_token : RunningQuery → RunningQuery
with_cancellation_token q = record q { cancelled = false }

unfoldable pub cancel : RunningQuery → RunningQuery
cancel q = record q { cancelled = true }

-- `RunningQuery::notify_query_finished`
unfoldable pub notify : ExecutionStatus → RunningQuery → RunningQuery
notify status q = record q { status = some status }

unfoldable pub update_query_stats : QueryStats → RunningQuery → RunningQuery
update_query_stats stats q = elim q.query_stats.query_type [
  | none ↦ record q { query_stats = record { query_type = stats.query_type } }
  | some t ↦ q
]

unfoldable pub new_registry : Registry
new_registry = record { queries = []; requests_ids = [] }

map_request : Option ℕ → QueryId → HashMap ℕ QueryId → HashMap ℕ QueryId
map_request none q m = m
map_request (some r) q m = insert r q m

unfoldable pub add : RunningQuery → Registry → Registry
unfolding map_request
add query s = record {
  queries = insert query.query_id query s.queries;
  requests_ids = map_request query.request_id query.query_id s.requests_ids;
}

-- A query of the registry, or `QueryIsntRunning`.
unfoldable pub running : QueryId → Registry → Result RunningQuery
running q s = elim (get q s.queries) [ none ↦ err (query_isnt_running q) | some r ↦ ok r ]

unfoldable pub remove_query : QueryId → Registry → Result RunningQuery × Registry
remove_query q s = elim (get q s.queries) [
  | none ↦ (err (query_isnt_running q), s)
  | some r ↦ (ok r, record s { queries = remove q s.queries })
]

-- A change of a query in place.
unfoldable pub change :
    QueryId → (RunningQuery → RunningQuery) → Registry → Result (Unit {0}) × Registry
change q f s = elim (get q s.queries) [
  | none ↦ (err (query_isnt_running q), s)
  | some r ↦ (ok tt, record s { queries = insert q (f r) s.queries })
]

unfoldable pub abort_query : QueryId → Registry → Result (Unit {0}) × Registry
abort_query q s = change q cancel s

unfoldable pub notify_query_finished :
    QueryId → ExecutionStatus → Registry → Result (Unit {0}) × Registry
notify_query_finished q status s = change q (notify status) s

unfoldable pub locate_query_id : RunningQueryId → Registry → Result QueryId
locate_query_id (by_query_id q) s = ok q
locate_query_id (by_request_id r sql_text) s = elim (get r s.requests_ids) [
  | none ↦ err (query_by_request_id_isnt_running r)
  | some q ↦ ok q
]

unfoldable pub count : Registry → ℕ
count s = length s.queries

unfoldable pub cloned_stats : QueryId → Registry → Option QueryStats
cloned_stats q s = elim (get q s.queries) [ none ↦ none | some r ↦ some r.query_stats ]

unfoldable pub update_stats : QueryId → QueryStats → Registry → Registry
update_stats q stats s = (change q (update_query_stats stats) s).1
