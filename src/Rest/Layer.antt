-- ===== src/Rest/Layer.antt =====
-- `propagate_session_cookie` (crates/api-snowflake-rest-sessions/src/layer.rs): the session of a
-- request's cookie, or a new one with a cookie to set. That a cookie fits into a header is assumed.
use rustice.Prelude.{ℕ, Option, none, some, [], Text, if◌then◌else◌}
use rustice.Executor.Sessions.{Sessions, session_exists}
use rustice.Rest.Headers.{HeaderMap, extract_token_from_cookie}
use rustice.Rest.Spcs.{TokenizedSession}
use rustice.Rest.Session.{Server, Parts, Result, from_request_parts}

-- `TokenizedSession::new`
abbrev pub new_tokenized : Text → TokenizedSession
new_tokenized session_id = record { session_id = session_id; metadata = [] }

-- The session for the extractor, and the id that the response sets as a cookie.
unfoldable pub cookie_session : Text → Option Text → Sessions → TokenizedSession × Option Text
cookie_session uuid none sessions = (new_tokenized uuid, some uuid)
cookie_session uuid (some token) sessions =
    if session_exists token sessions
    then (new_tokenized token, none)
    else (new_tokenized uuid, some uuid)

unfoldable pub propagate_session_cookie : Text → HeaderMap → Sessions → Parts × Option Text
propagate_session_cookie uuid headers sessions =
    let session = cookie_session uuid (extract_token_from_cookie headers) sessions in
    (record { headers = headers; extension = some session.0 }, session.1)

-- The layer, and the extractor of the handler behind it.
unfoldable pub serve :
    Server → ℕ → Text → HeaderMap → Sessions → (Result TokenizedSession × Sessions) × Option Text
serve server now uuid headers sessions =
    let (req, set_cookie) = propagate_session_cookie uuid headers sessions in
    (from_request_parts server now req sessions, set_cookie)
