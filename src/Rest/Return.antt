-- ===== src/Rest/Return.antt =====
-- A browser that keeps its cookie keeps its session (crates/api-snowflake-rest-sessions/src/layer.rs and
-- session.rs).
use rustice.Prelude.{
  ℕ, ◌+◌, ◌≤◌, Option, none, some, List, [], ◌∷◌, Text, text_eq, codes, ◌≡◌, refl, arith, ap, ◌∙◌,
  beq_refl,
}
use rustice.Prelude.HashMap.{get, insert, get-insert, Unique, insert-Unique, retain-Unique}
use rustice.Executor.Sessions.{
  UserSession, Sessions, update_session_expiry, new_session, session_exists,
  session_inactivity_expiration_seconds, delete_expired_sessions, keeps_session,
}
use rustice.Executor.SessionLaws.{get-delete_expired_sessions}
use rustice.Rest.Headers.{
  HeaderMap, get_all, extract_token_from_auth, extract_token_from_cookie, session_id_cookie_name,
}
use rustice.Rest.Spcs.{TokenizedSession}
use rustice.Rest.Session.{
  ok, Server, session_of_extension, trusted_session, locate_session, get_or_create_session,
  from_request_parts,
}
use rustice.Rest.Layer.{new_tokenized, cookie_session, propagate_session_cookie, serve}
use rustice.Rest.Cookies.{ArePlain, cookie_header, cookies_from_header-get_all, insert_all}
use rustice.Rest.Admission.{create_session_absent}

-- A request that a browser sends with its cookies, in one header; the cookie of the session is among them,
-- or the last of several.
abbrev pub SendsCookie : Text → List (Text × Text) → HeaderMap → Type 0
SendsCookie id cookies headers =
    (get_all (codes "cookie") headers ≡ some (cookie_header cookies) ∷ [])
    × ArePlain cookies
    × (get session_id_cookie_name (insert_all cookies []) ≡ some id)

extract-SendsCookie :
    (id : Text) (cookies : List (Text × Text)) (headers : HeaderMap)
    → SendsCookie id cookies headers
    → extract_token_from_cookie headers ≡ some id
unfolding extract_token_from_cookie
extract-SendsCookie id cookies headers (sent, plain, found) =
    rw (cookies_from_header-get_all headers (codes "cookie") cookies plain sent) found

known_cookie :
    (id uuid : Text) (cookies : List (Text × Text)) (headers : HeaderMap) (row : UserSession)
    (sessions : Sessions)
    → SendsCookie id cookies headers
    → get id sessions ≡ some row
    → cookie_session uuid (extract_token_from_cookie headers) sessions ≡ (new_tokenized id, none)
unfolding cookie_session session_exists
known_cookie id uuid cookies headers row sessions sent there =
    rw (extract-SendsCookie id cookies headers sent) (rw there refl)

-- Clean-ups one after another, each at its time and with the number of queries that run then
abbrev pub clean_up : List (ℕ × ℕ) → Sessions → Sessions
clean_up [] sessions = sessions
clean_up ((time, running_queries_count) ∷ rest) sessions =
    clean_up rest (delete_expired_sessions time running_queries_count sessions)

abbrev pub AllBefore : ℕ → List (ℕ × ℕ) → Type 0
AllBefore expiry [] = Unit {0}
AllBefore expiry ((time, running_queries_count) ∷ rest) =
    (time + 1 ≤ expiry) × AllBefore expiry rest

delete_expired_sessions-Unique :
    (time n : ℕ) (sessions : Sessions)
    → Unique sessions
    → Unique (delete_expired_sessions time n sessions)
unfolding delete_expired_sessions
delete_expired_sessions-Unique time n sessions h =
    retain-Unique (λ id session. keeps_session time n session) sessions h

-- A session outlives the clean-ups before its expiry.
get-clean_up :
    (clean_ups : List (ℕ × ℕ)) (id : Text) (row : UserSession) (sessions : Sessions)
    → Unique sessions
    → AllBefore row.expiry clean_ups
    → get id sessions ≡ some row
    → get id (clean_up clean_ups sessions) ≡ some row
get-clean_up [] id row sessions unique before there = there
get-clean_up ((time, n) ∷ rest) id row sessions unique (soon, before) there =
    get-clean_up rest id row (delete_expired_sessions time n sessions)
      (delete_expired_sessions-Unique time n sessions unique) before
      (ground (arith, soon, there, get-delete_expired_sessions time n id sessions unique))

module _ (server : Server) where
  locate_extension :
      (headers : HeaderMap) (session : TokenizedSession)
      → trusted_session server headers ≡ none
      → extract_token_from_auth headers ≡ none
      → locate_session server (record { headers = headers; extension = some session }) ≡ ok session
  unfolding locate_session session_of_extension
  locate_extension headers session h k = rw (h, locate_session, k) refl

  get_or_create_new :
      (now : ℕ) (session : TokenizedSession) (sessions : Sessions)
      → get session.session_id sessions ≡ none
      → server.set_up session.session_id ≡ none
      → get_or_create_session server now session sessions
        ≡ (ok session, insert session.session_id (new_session now session.session_id) sessions)
  unfolding get_or_create_session update_session_expiry
  get_or_create_new now session sessions fresh ready =
      rw
        (
          fresh,
          update_session_expiry,
          ready,
          create_session_absent now session.session_id sessions fresh,
        )
        refl

  get_or_create_there :
      (now : ℕ) (session : TokenizedSession) (row : UserSession) (sessions : Sessions)
      → get session.session_id sessions ≡ some row
      → get_or_create_session server now session sessions
        ≡ (ok session, (update_session_expiry now session.session_id sessions).1)
  unfolding get_or_create_session update_session_expiry
  get_or_create_there now session row sessions there = rw (there, update_session_expiry) refl

  -- The session that the layer makes is the one that is served.
  serve_layer :
      (now : ℕ) (uuid : Text) (headers : HeaderMap) (sessions : Sessions)
      (session : TokenizedSession) (set_cookie : Option Text)
      → trusted_session server headers ≡ none
      → extract_token_from_auth headers ≡ none
      → cookie_session uuid (extract_token_from_cookie headers) sessions ≡ (session, set_cookie)
      → serve server now uuid headers sessions
        ≡ (get_or_create_session server now session sessions, set_cookie)
  unfolding serve propagate_session_cookie from_request_parts
  serve_layer now uuid headers sessions session set_cookie distrusted no_token made =
      rw made (rw (locate_extension headers session distrusted no_token, from_request_parts) refl)

  -- A request without a cookie, and one with the cookie of a session that is there.
  serve_new :
      (now : ℕ) (uuid : Text) (headers : HeaderMap) (sessions : Sessions)
      → trusted_session server headers ≡ none
      → extract_token_from_auth headers ≡ none
      → extract_token_from_cookie headers ≡ none
      → server.set_up uuid ≡ none
      → get uuid sessions ≡ none
      → serve server now uuid headers sessions
        ≡ ((ok (new_tokenized uuid), insert uuid (new_session now uuid) sessions), some uuid)
  unfolding cookie_session
  serve_new now uuid headers sessions distrusted no_token no_cookie ready fresh =
      serve_layer now uuid headers sessions (new_tokenized uuid) (some uuid) distrusted no_token
        (rw no_cookie refl)
      ∙ ap (λ r. (r, some uuid)) (get_or_create_new now (new_tokenized uuid) sessions fresh ready)

  serve_cookie :
      (now : ℕ) (id uuid : Text) (cookies : List (Text × Text)) (headers : HeaderMap)
      (row : UserSession) (sessions : Sessions)
      → trusted_session server headers ≡ none
      → extract_token_from_auth headers ≡ none
      → SendsCookie id cookies headers
      → get id sessions ≡ some row
      → serve server now uuid headers sessions
        ≡ ((ok (new_tokenized id), (update_session_expiry now id sessions).1), none)
  serve_cookie now id uuid cookies headers row sessions distrusted no_token sent there =
      serve_layer now uuid headers sessions (new_tokenized id) none distrusted no_token
        (known_cookie id uuid cookies headers row sessions sent there)
      ∙ ap (λ r. (r, none)) (get_or_create_there now (new_tokenized id) row sessions there)

  -- A request that names no user of a trusted ingress and has no token and no cookie of a session gets a new
  -- session, whose set-up succeeds, and its cookie. After any clean-ups in the four hours from then on, a
  -- request that sends this cookie among others, and also names no such user and has no token, is served in
  -- that session and gets no new cookie. The cookies have no semicolon, equals sign or white space in them.
  pub serve-serve :
      (now later : ℕ) (clean_ups : List (ℕ × ℕ)) (uuid uuid' : Text) (headers headers' : HeaderMap)
      (cookies : List (Text × Text)) (sessions : Sessions)
      → trusted_session server headers ≡ none
      → extract_token_from_auth headers ≡ none
      → extract_token_from_cookie headers ≡ none
      → server.set_up uuid ≡ none
      → Unique sessions
      → get uuid sessions ≡ none
      → AllBefore (now + session_inactivity_expiration_seconds) clean_ups
      → trusted_session server headers' ≡ none
      → extract_token_from_auth headers' ≡ none
      → SendsCookie uuid cookies headers'
      → let first = serve server now uuid headers sessions in
        let second = serve server later uuid' headers' (clean_up clean_ups first.0.1) in
        (first.0.0 ≡ ok (new_tokenized uuid))
        × (first.1 ≡ some uuid)
        × (second.0.0 ≡ ok (new_tokenized uuid))
        × (second.1 ≡ none)
  unfolding new_session
  serve-serve now later clean_ups uuid uuid' headers headers' cookies sessions distrusted no_token
        no_cookie ready unique fresh before distrusted' no_token' sent =
      let row = new_session now uuid in
      let first = serve_new now uuid headers sessions distrusted no_token no_cookie ready fresh in
      let there : get uuid (insert uuid row sessions) ≡ some row =
        ground (arith, get-insert uuid uuid row sessions, beq_refl uuid) in
      let second = serve_cookie later uuid uuid' cookies headers' row _ distrusted' no_token' sent (
        get-clean_up clean_ups uuid row (insert uuid row sessions)
          (insert-Unique uuid row sessions unique) before there) in
      rw first (refl, refl, ap (λ r. r.0.0) second, ap (λ r. r.1) second)
