-- ===== src/Executor/Concurrency.antt =====
-- The limit on running queries (crates/executor/src/service.rs): what keeps it, and how two
-- submissions that interleave can pass it.
use rustice.Prelude.{
  ℕ, ◌+◌, ◌≤◌, true, false, ◌≡◌, ◌≢◌, refl, Option, Text, nat_eq, nat_beq_iff, List, [], ◌∷◌, arith,
  Option-cases, inl, inr,
}
use rustice.Prelude.HashMap.{get, contains_key, get-insert, length-insert, length-remove-le}
use rustice.Executor.TaskResult.{
  QueryId, Error, ErrorCode, Ending, from_query_limit_exceeded, execution_result,
}
use rustice.Executor.RunningQueries.{
  Registry, RunningQuery, add, remove_query, change, abort_query, cancel, notify,
  notify_query_finished, running, count, new_query, with_request_id, with_result_handle,
  with_cancellation_token, new_registry,
}
use rustice.Executor.Sessions.{Sessions}
use rustice.Executor.Service.{
  Service, started, returned, panicked, init, submit, admits, spawn, finish, discard, wait, abort,
}

-- What happens to the service: calls, ends of tasks and discards, in any order.
pub data Event (R : Type 0) : Type 0 where
  submits : Text → QueryId → Option ℕ → Event R
  ends : ℕ → Ending R → Event R
  discards waits aborts : QueryId → Event R

module _ {R : Type 0} (code_of : Error → ErrorCode) where
  unfoldable pub step : Event R → Service R → Service R
  step (submits session_id q request_id) s = (submit session_id q request_id s).1
  step (ends task ending) s = finish code_of task ending s
  step (discards q) s = discard q s
  step (waits q) s = (wait q s).1
  step (aborts q) s = (abort q s).1

  unfoldable pub run : List (Event R) → Service R → Service R
  run [] s = s
  run (e ∷ es) s = run es (step e s)

-- A change of a query in place keeps the count, and a removal does not raise it.
count-change :
    (q : QueryId) (f : RunningQuery → RunningQuery) (s : Registry)
    → count (change q f s).1 ≡ count s
unfolding count change
count-change q f s = elim (Option-cases (get q s.queries)) [
  | inl gone ↦ ground (arith, gone)
  | inr (query, there) ↦ ground (arith, there, length-insert q (f query) s.queries)
]

count-remove_query : (q : QueryId) (s : Registry) → count (remove_query q s).1 ≤ count s
unfolding count remove_query
count-remove_query q s = ground (arith, length-remove-le q s.queries)

count-add : (query : RunningQuery) (s : Registry) → count (add query s) ≤ count s + 1
unfolding count add
count-add query s = ground (arith, length-insert query.query_id query s.queries)

abbrev Within : {R : Type 0} → Service R → Type 0
Within s = count s.registry ≤ s.max_concurrency_level

module _ {R : Type 0} (code_of : Error → ErrorCode) (s : Service R) (h : Within s) where
  submit-Within :
      (session_id : Text) (q : QueryId) (r : Option ℕ) → Within (submit session_id q r s).1
  unfolding submit admits spawn from_query_limit_exceeded
  submit-Within session_id q r = ground (
    arith,
    count-add
        (with_cancellation_token (with_result_handle s.next_task (with_request_id r (new_query q))))
        s.registry,
  )

  finish-Within : (task : ℕ) (ending : Ending R) → Within (finish code_of task ending s)
  unfolding finish notify_query_finished change count
  finish-Within task ending = elim (Option-cases (get task s.tasks)) [
    | inl gone ↦ ground (arith, gone)
    | inr (started q, there) ↦ elim (Option-cases (get q s.registry.queries)) [
      | inl lost ↦ ground (arith, there, lost)
      | inr (query, found) ↦ ground (
        arith,
        there,
        found,
        length-insert q (notify (execution_result code_of q ending).execution_status query)
            s.registry.queries,
      )
    ]
    | inr (returned r, there) ↦ ground (arith, there)
    | inr (panicked, there) ↦ ground (arith, there)
  ]

  wait-Within : (q : QueryId) → Within (wait q s).1
  unfolding wait running
  wait-Within q = ground (arith, count-remove_query q s.registry)

  abort-Within : (q : QueryId) → Within (abort q s).1
  unfolding abort abort_query
  abort-Within q = ground (arith, count-change q cancel s.registry)

  step-Within : (e : Event R) → Within (step code_of e s)
  unfolding step discard
  step-Within (submits session_id q r) = submit-Within session_id q r
  step-Within (ends task ending) = finish-Within task ending
  step-Within (discards q) = ground (arith, count-remove_query q s.registry)
  step-Within (waits q) = wait-Within q
  step-Within (aborts q) = abort-Within q

-- A new query that is spawned is one more in the registry.
count-spawn :
    {R : Type 0} (s : Service R) (q : QueryId) (r : Option ℕ)
    → contains_key q s.registry.queries ≡ false
    → count (spawn q r s).registry ≡ count s.registry + 1
unfolding spawn add count new_query with_request_id with_result_handle with_cancellation_token
count-spawn s q r fresh = ground (
  arith,
  length-insert q
      (with_cancellation_token (with_result_handle s.next_task (with_request_id r (new_query q))))
      s.registry.queries,
)

module _ {R : Type 0} (code_of : Error → ErrorCode) where
  run-Within : (es : List (Event R)) (s : Service R) → Within s → Within (run code_of es s)
  unfolding run
  run-Within [] s h = h
  run-Within (e ∷ es) s h = run-Within es (step code_of e s) (step-Within code_of s h e)

  step-max_concurrency_level :
      (e : Event R) (s : Service R)
      → (step code_of e s).max_concurrency_level ≡ s.max_concurrency_level
  unfolding step submit spawn finish discard wait abort from_query_limit_exceeded
      notify_query_finished change
  step-max_concurrency_level (submits session_id q r) s = ground arith
  step-max_concurrency_level (ends task ending) s = elim (Option-cases (get task s.tasks)) [
    | inl gone ↦ ground (arith, gone)
    | inr (started q, there) ↦ elim (Option-cases (get q s.registry.queries)) [
      | inl lost ↦ ground (arith, there, lost)
      | inr (query, found) ↦ ground (arith, there, found)
    ]
    | inr (returned r, there) ↦ ground (arith, there)
    | inr (panicked, there) ↦ ground (arith, there)
  ]
  step-max_concurrency_level (discards q) s = refl
  step-max_concurrency_level (waits q) s = ground arith
  step-max_concurrency_level (aborts q) s = ground arith

  run-max_concurrency_level :
      (es : List (Event R)) (s : Service R)
      → (run code_of es s).max_concurrency_level ≡ s.max_concurrency_level
  unfolding run
  run-max_concurrency_level [] s = refl
  run-max_concurrency_level (e ∷ es) s =
      ground
        (arith, run-max_concurrency_level es (step code_of e s), step-max_concurrency_level e s)

  -- Whatever a service has gone through, call by call, it runs at most as many queries as its limit
  -- allows.
  pub count-run :
      (sessions : Sessions) (level : ℕ) (es : List (Event R))
      → count (run code_of es (init sessions level)).registry ≤ level
  unfolding init new_registry count
  count-run sessions level es = ground (
    arith,
    run-Within es (init sessions level) (omega arith),
    run-max_concurrency_level es (init sessions level),
  )

contains-spawn :
    {R : Type 0} (s : Service R) (q q' : QueryId) (r : Option ℕ)
    → contains_key q' s.registry.queries ≡ false
    → q ≢ q'
    → contains_key q' (spawn q r s).registry.queries ≡ false
unfolding spawn add new_query with_request_id with_result_handle with_cancellation_token
contains-spawn s q q' r fresh differ = ground (
  arith,
  differ,
  fresh,
  nat_beq_iff q q',
  get-insert q q'
      (with_cancellation_token (with_result_handle s.next_task (with_request_id r (new_query q))))
      s.registry.queries,
)

-- The test against the limit and the registration are two steps of `submit`: where one place is left
-- and two submissions of different new queries both make the test before either registers its query,
-- both are admitted, and the service ends up above its limit.
count-spawn-spawn :
    {R : Type 0} (s : Service R) (q q' : QueryId) (r r' : Option ℕ)
    → count s.registry + 1 ≡ s.max_concurrency_level
    → contains_key q s.registry.queries ≡ false
    → contains_key q' s.registry.queries ≡ false
    → q ≢ q'
    → (admits s ≡ true) × (count (spawn q' r' (spawn q r s)).registry ≡ s.max_concurrency_level + 1)
unfolding admits
count-spawn-spawn s q q' r r' full fresh fresh' differ = (
  ground (arith, full),
  ground (
    arith,
    full,
    count-spawn s q r fresh,
    count-spawn (spawn q r s) q' r' (contains-spawn s q q' r fresh' differ),
  ),
)
