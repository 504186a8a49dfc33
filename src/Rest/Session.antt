-- ===== src/Rest/Session.antt =====
-- `TokenizedSession::from_request_parts` (crates/api-snowflake-rest-sessions/src/session.rs): who a
-- request is from, and its session in the execution service. `jsonwebtoken` checks a token's signature,
-- expiry and audience.
use rustice.Prelude.{ℕ, Bool, Option, none, some, Text, codes, if◌then◌else◌}
use rustice.Executor.Sessions.{Sessions, update_session_expiry, create_session}
use rustice.Rest.Headers.{HeaderMap, get_str, extract_token_from_auth}
use rustice.Rest.Spcs.{Ingress, TokenizedSession, spcs_ingress_session_from_headers}

-- The errors that the extraction makes, with the messages of the foreign ones.
pub data Error : Type 0 where
  bad_auth_token execution : Text → Error
  missing_auth_token missing_host : Error

pub data Result (A : Type 0) : Type 0 where
  ok : A → Result A
  err : Error → Result A

-- `helpers::get_claims_validate_jwt_token`: the session in the claims of a valid token for the audience,
-- or the error of `jsonwebtoken`; and what `UserSession::new` answers, `none` where it succeeds.
pub record Server : Type 0 where
  pub ingress : Ingress
  pub trust_spcs_ingress : Bool
  pub jwt_secret : Text
  pub get_claims_validate_jwt_token : Text → Text → Text → Result TokenizedSession
  pub set_up : Text → Option Text

-- A request as the extractor sees it: its headers, and the session that a layer has put into it.
pub record Parts : Type 0 where
  pub headers : HeaderMap
  pub extension : Option TokenizedSession

module _ (server : Server) where
  -- The error of `.context(BadAuthTokenSnafu)` is that of the parameter.
  unfoldable pub session_of_token : Text → Option Text → Result TokenizedSession
  session_of_token token none = err missing_host
  session_of_token token (some host) =
      server.get_claims_validate_jwt_token token host server.jwt_secret

  unfoldable pub session_of_extension : Option TokenizedSession → Result TokenizedSession
  session_of_extension none = err missing_auth_token
  session_of_extension (some session) = ok session

  unfoldable pub trusted_session : HeaderMap → Option TokenizedSession
  trusted_session headers =
      if server.trust_spcs_ingress
      then spcs_ingress_session_from_headers server.ingress headers
      else none

  -- The three places where a session is looked for.
  unfoldable pub locate_session : Parts → Result TokenizedSession
  locate_session req = elim (trusted_session req.headers) [
    | some session ↦ ok session
    | none ↦ elim (extract_token_from_auth req.headers) [
      | some token ↦ session_of_token token (get_str (codes "host") req.headers)
      | none ↦ session_of_extension req.extension
    ]
  ]

  abbrev created :
      TokenizedSession → Option Text → ℕ → Sessions → Result TokenizedSession × Sessions
  created session (some message) now sessions = (err (execution message), sessions)
  created session none now sessions =
      (ok session, (create_session now session.session_id sessions).1)

  unfoldable pub get_or_create_session :
      ℕ → TokenizedSession → Sessions → Result TokenizedSession × Sessions
  get_or_create_session now session sessions =
      let renewed = update_session_expiry now session.session_id sessions in
      if renewed.0
      then (ok session, renewed.1)
      else created session (server.set_up session.session_id) now renewed.1

  unfoldable pub from_request_parts : ℕ → Parts → Sessions → Result TokenizedSession × Sessions
  from_request_parts now req sessions = elim (locate_session req) [
    | ok session ↦ get_or_create_session now session sessions
    | err e ↦ (err e, sessions)
  ]
