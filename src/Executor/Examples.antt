-- ===== src/Executor/Examples.antt =====
-- A small execution service that runs, and the theorems about the service at concrete inputs.
use rustice.Prelude.{
  Option, suc, ltb, if◌then◌else◌, ℕ, ◌+◌, ◌≤◌, ◌/◌, ◌%◌, ℤ, pos, negsuc, List, Text, text_beq,
  ◌&&◌, true, false, ◌≡◌, refl, none, some, [], ◌∷◌, codes, show_usize, text_eq, nat_eq, arith,
}
use rustice.Prelude.HashMap.{HashMap, get}
use rustice.Executor.TaskResult.{
  Error, ErrorCode, other, err, timed_out, execution_result, query_isnt_running, query_execution,
  query_timeout,
}
use rustice.Executor.RunningQueries.{RunningQuery, count}
use rustice.Executor.Sessions.{
  Sessions, UserSession, delete_expired_sessions, update_session_expiry,
  session_inactivity_expiration_seconds, get_session,
}
use rustice.Executor.Times.{
  millisecond, Chrono, convert_time, convert_timestamp_to_struct, nanos_of, offset_of, times,
}
use rustice.Executor.TimeLaws.{convert_time_lem, convert_timestamp_to_struct_lem}
use rustice.Executor.Service.{Service, ready, init, submit, admits, finish, wait}
use rustice.Executor.QueryLife.{wait-finish-submit}
use rustice.Executor.Merge.{Batch, Poll, batch, ended, poll_next, polls, new_stream}
use rustice.Executor.Merge
use rustice.Executor.Merge.Stream.{named, includes, files_of, polls-ended}
use rustice.Executor.Concurrency.{submits, run, count-run}
use rustice.Executor.Sessions.{idle_tick, timeout_signal}
use rustice.Executor.IdleTimeout.{IdleWindow, timeout_signal_lem}
use rustice.Executor.SessionLaws.{
  get-delete_expired_sessions, delete_expired_sessions-update_session_expiry,
}

abbrev session : UserSession
session = record { session_id = codes "a"; expiry = 100; recent_queries = 3 ∷ [] }

abbrev sessions : Sessions
sessions = (codes "a", session) ∷ []

abbrev other_code : Error → ErrorCode
other_code e = other

-- One session, and room for one query; the results are numbers.
abbrev service : Service ℕ
service = record {
  sessions = sessions;
  max_concurrency_level = 1;
  registry = record { queries = []; requests_ids = [] };
  tasks = [];
  next_task = 0;
  discards = [];
}

-- A query of a session with a request id, and its state with one running query.
abbrev query : RunningQuery
query = record {
  query_id = 5;
  request_id = none;
  result_handle = some 0;
  cancelled = false;
  status = none;
  query_stats = record { query_type = none };
}

abbrev busy : Service ℕ
busy = record service { registry = record { queries = (5, query) ∷ []; requests_ids = [] } }

wait-finish-submit_example :
    let t = finish other_code 0 timed_out (submit (codes "a") 5 (some 9) service).1 in
    ((wait 5 t).0 ≡ ready (err (query_execution 5 query_timeout)))
    × ((wait 5 (wait 5 t).1).0 ≡ ready (err (query_isnt_running 5)))
unfolding submit get_session get admits count execution_result
wait-finish-submit_example =
    wait-finish-submit other_code service 5 (codes "a") (some 9) timed_out refl

count-run_example :
    count
      (run {R = ℕ} other_code
        (submits (codes "a") 5 none ∷ submits (codes "a") 6 none ∷ [])
        (init sessions 1)).registry
    ≤ 1
count-run_example =
    count-run {R = ℕ} other_code sessions 1
      (submits (codes "a") 5 none ∷ submits (codes "a") 6 none ∷ [])

get-delete_expired_sessions_example :
    get (codes "a") (delete_expired_sessions 100 0 sessions) ≡ none
unfolding get
get-delete_expired_sessions_example =
    get-delete_expired_sessions 100 0 (codes "a") sessions (refl, tt)

delete_expired_sessions-update_session_expiry_example :
    get
      (codes "a")
      (delete_expired_sessions 200 0 (update_session_expiry 90 (codes "a") sessions).1)
    ≡ some (record session { expiry = 90 + session_inactivity_expiration_seconds })
unfolding get
delete_expired_sessions-update_session_expiry_example =
    delete_expired_sessions-update_session_expiry 90 200 0 (codes "a") session sessions (refl, tt)
      refl (omega arith)

timeout_signal_lem_example : IdleWindow 10 3 ((1, false) ∷ (2, true) ∷ (15, true) ∷ [])
unfolding timeout_signal idle_tick
timeout_signal_lem_example = timeout_signal_lem 10 ((1, false) ∷ (2, true) ∷ (15, true) ∷ []) 3 refl

-- A file in two rows and a row without one.
abbrev merge_batch : Batch ℕ
merge_batch = record {
  rows =
      (record { is_valid = true; text = codes "f" }, record { is_valid = true; text = codes "m" })
      ∷ (record { is_valid = true; text = codes "f" }, record { is_valid = true; text = codes "m" })
      ∷ (record { is_valid = false; text = [] }, record { is_valid = false; text = [] })
      ∷ [];
  updated = none;
  inserted = none;
  columns = [];
}

polls-ended_example :
    (grouped : HashMap Text (List Text)) × ((poll_next {C = ℕ} ended
        (polls (batch merge_batch ∷ Merge.pending ∷ []) new_stream)).1.matching_files_ref
      ≡ some grouped)
    × ((f k : Text)
        → includes f (files_of (get k grouped))
          ≡ (named f (batch merge_batch ∷ Merge.pending ∷ []) && text_beq (codes "m") k))
polls-ended_example =
    polls-ended (λ f. codes "m") (batch merge_batch ∷ Merge.pending ∷ [])
      (
        (
          ((λ e. ground (arith, e)), (λ v e. (refl, refl))),
          (
            ((λ e. ground (arith, e)), (λ v e. (refl, refl))),
            (((λ e. refl), (λ v e. ground (arith, v))), tt),
          ),
        ),
        tt,
      )

-- Milliseconds of a day by their count
abbrev seconds_of : ℤ → ℤ
seconds_of (pos n) = pos (n / 1000)
seconds_of (negsuc n) = negsuc n

abbrev millis_of : ℤ → ℕ
millis_of (pos n) = n % 1000
millis_of (negsuc n) = 0

abbrev millis : Chrono
millis = record {
  DateTime = ℤ;
  default = pos 0;
  from_timestamp = λ unit z. some z;
  timestamp = seconds_of;
  timestamp_subsec = λ unit z. millis_of z;
}

convert_time_lem_example : convert_time millis millisecond (pos 43200007) ≡ codes "43200.007"
unfolding show_usize
convert_time_lem_example =
    convert_time_lem millis millisecond 43200007 (pos 43200007) (refl, refl, refl)

-- Offsets of less than a day, as their seconds
abbrev east_opt : ℤ → Option ℤ
east_opt (pos n) = if ltb n 86400 then some (pos n) else none
east_opt (negsuc n) = if ltb (suc n) 86400 then some (negsuc n) else none

-- One and a half seconds before the epoch, two hours behind UTC
convert_timestamp_to_struct_lem_example :
    let s = convert_timestamp_to_struct (some (times (negsuc 119) 60)) (negsuc 1499999999) in
    (nanos_of s ≡ negsuc 1499999999) × (offset_of east_opt s ≡ some (times (negsuc 119) 60))
unfolding times
convert_timestamp_to_struct_lem_example =
    convert_timestamp_to_struct_lem east_opt (pos 0) refl (negsuc 119) (negsuc 1499999999)
