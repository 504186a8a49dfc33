-- ===== src/Executor/SessionLaws.antt =====
-- Sessions and request ids (crates/executor/src/service.rs, session.rs, running_queries.rs): what
-- expires, and what stays.
use rustice.Prelude.{
  ℕ, ◌+◌, ◌≤◌, ◌&&◌, ◌≡◌, refl, none, some, Text, text_eq, nat_eq, nat_beq, [], ◌∷◌, leb, arith,
  if◌then◌else◌, length, take, length-take, Option-cases, beq_refl,
}
use rustice.Prelude.HashMap.{get, Unique, get-retain, get-insert, insert-Unique, insert}
use rustice.Executor.TaskResult.{QueryId, ok}
use rustice.Executor.RunningQueries.{
  by_request_id, locate_query_id, add, new_query, with_request_id, with_result_handle,
  with_cancellation_token, remove_query,
}
use rustice.Executor.Sessions.{
  Sessions, UserSession, keeps_session, delete_expired_sessions, record_query_id, max_queries,
  update_session_expiry, session_inactivity_expiration_seconds,
}
use rustice.Executor.Service.{Service, submit, spawn, discard}
use rustice.Executor.QueryLife.{submit-eq_spawn}

-- Where each session id has one entry, the clean-up removes exactly the sessions whose expiry has
-- come, and none at all while any query of the service runs.
pub get-delete_expired_sessions :
    (now running_queries_count : ℕ) (id : Text) (sessions : Sessions)
    → Unique sessions
    → get id (delete_expired_sessions now running_queries_count sessions) ≡ elim (get id sessions) [
      | none ↦ none
      | some session ↦
          if leb session.expiry now && nat_beq running_queries_count 0 then none else some session
    ]
unfolding delete_expired_sessions keeps_session
get-delete_expired_sessions now n id sessions h = ground (
  arith,
  get-retain (λ id session. keeps_session now n session) id sessions h,
  Option-cases (get id sessions),
)

-- A session that has just been renewed outlives every clean-up in the next four hours.
pub delete_expired_sessions-update_session_expiry :
    (now later running_queries_count : ℕ) (id : Text) (session : UserSession) (sessions : Sessions)
    → Unique sessions
    → get id sessions ≡ some session
    → later + 1 ≤ now + session_inactivity_expiration_seconds
    → get id (
        delete_expired_sessions later running_queries_count
          (update_session_expiry now id sessions).1)
      ≡ some (record session { expiry = now + session_inactivity_expiration_seconds })
unfolding update_session_expiry
delete_expired_sessions-update_session_expiry now later n id session sessions h found soon =
    let renewed = record session { expiry = now + session_inactivity_expiration_seconds } in
    ground (
      arith,
      found,
      soon,
      get-delete_expired_sessions later n id (insert id renewed sessions)
          (insert-Unique id renewed sessions h),
      get-insert id id renewed sessions,
      beq_refl id,
    )

-- The newest query comes first among a session's recent ones, which are 64 at most.
pub record_query_id_lem :
    (q : QueryId) (session : UserSession)
    → (take 1 (record_query_id q session).recent_queries ≡ q ∷ [])
      × (length (record_query_id q session).recent_queries ≤ max_queries)
unfolding record_query_id
record_query_id_lem q session =
    (refl, omega (arith, length-take max_queries (q ∷ session.recent_queries)))

module _ {R : Type 0} (s : Service R) (q : QueryId) where
  -- The request id of a submitted query goes on naming the query after its result has been
  -- discarded.
  locate_query_id-discard :
      (session_id sql_text : Text) (request_id : ℕ)
      → (submit session_id q (some request_id) s).0 ≡ ok q
      → let t = (submit session_id q (some request_id) s).1 in
        locate_query_id (by_request_id request_id sql_text) (discard q t).registry ≡ ok q
  unfolding locate_query_id discard remove_query spawn add new_query with_request_id
      with_result_handle with_cancellation_token
  locate_query_id-discard session_id sql_text request_id e =
      rw (submit-eq_spawn s q session_id (some request_id) e)
        (ground (arith, get-insert request_id request_id q s.registry.requests_ids))
