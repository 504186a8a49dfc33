-- ===== src/Executor/Sessions.antt =====
-- crates/executor/src/session.rs and the session methods of service.rs. Times are whole seconds.
use rustice.Prelude.{
  ℕ, ◌+◌, ◌-◌, ◌*◌, Bool, true, false, Option, none, some, Text, text_eq, List, [], ◌∷◌, nat_beq,
  leb, if◌then◌else◌, take,
}
use rustice.Prelude.HashMap.{HashMap, get, insert, remove, contains_key, retain}
use rustice.Executor.TaskResult.{QueryId, Result, ok, err, missing_data_fusion_session}

-- SESSION_INACTIVITY_EXPIRATION_SECONDS
abbrev pub session_inactivity_expiration_seconds : ℕ
session_inactivity_expiration_seconds = 4 * 60 * 60

-- MAX_QUERIES of `record_query_id`
abbrev pub max_queries : ℕ
max_queries = 64

pub record UserSession : Type 0 where
  pub session_id : Text
  pub expiry : ℕ
  pub recent_queries : List QueryId

abbrev pub Sessions : Type 0
Sessions = HashMap Text UserSession

-- `UserSession::new`
unfoldable pub new_session : ℕ → Text → UserSession
new_session now id = record {
  session_id = id;
  expiry = now + session_inactivity_expiration_seconds;
  recent_queries = [];
}

-- `while guard.len() > MAX_QUERIES { guard.pop_back() }` keeps the front.
unfoldable pub record_query_id : QueryId → UserSession → UserSession
record_query_id q session = record session {
  recent_queries = take max_queries (q ∷ session.recent_queries);
}

unfoldable pub create_session : ℕ → Text → Sessions → UserSession × Sessions
create_session now id sessions = elim (get id sessions) [
  | some session ↦ (session, sessions)
  | none ↦ (new_session now id, insert id (new_session now id) sessions)
]

unfoldable pub update_session_expiry : ℕ → Text → Sessions → Bool × Sessions
update_session_expiry now id sessions = elim (get id sessions) [
  | some session ↦ (
    true,
    insert id (record session { expiry = now + session_inactivity_expiration_seconds }) sessions,
  )
  | none ↦ (false, sessions)
]

-- The test of `retain` in `delete_expired_sessions`: the count is that of the shared registry.
unfoldable pub keeps_session : ℕ → ℕ → UserSession → Bool
keeps_session now running_queries_count session =
    if leb session.expiry now
    then (if nat_beq running_queries_count 0 then false else true)
    else true

unfoldable pub delete_expired_sessions : ℕ → ℕ → Sessions → Sessions
delete_expired_sessions now running_queries_count sessions =
    retain (λ id session. keeps_session now running_queries_count session) sessions

unfoldable pub get_session : Text → Sessions → Result UserSession
get_session id sessions = elim (get id sessions) [
  | none ↦ err (missing_data_fusion_session id)
  | some s ↦ ok s
]

unfoldable pub session_exists : Text → Sessions → Bool
session_exists id sessions = contains_key id sessions

unfoldable pub delete_session : Text → Sessions → Sessions
delete_session id sessions = remove id sessions

-- One tick of `timeout_signal`: `none` is the return, and `some` the new start of the idle window.
unfoldable pub idle_tick : ℕ → ℕ → Bool → Option ℕ → Option (Option ℕ)
idle_tick idle_timeout now idle_now none = some (if idle_now then some now else none)
idle_tick idle_timeout now idle_now (some since) =
    if idle_now
    then (if leb idle_timeout (now - since) then none else some (some since))
    else some none

-- The loop over the ticks that come, each with its time and whether the service was idle. The answer
-- is the number of ticks until the return, if it is reached.
unfoldable pub timeout_signal : ℕ → Option ℕ → List (ℕ × Bool) → Option ℕ
timeout_signal idle_timeout since [] = none
timeout_signal idle_timeout since ((now, idle_now) ∷ ticks) =
    elim (idle_tick idle_timeout now idle_now since) [
      | none ↦ some 1
      | some next ↦ elim (timeout_signal idle_timeout next ticks) [
        | none ↦ none
        | some n ↦ some (n + 1)
      ]
    ]
