-- ===== src/Rest/Admission.antt =====
-- Who is let in, and what becomes of the sessions (crates/api-snowflake-rest-sessions/src/session.rs).
use rustice.Prelude.{
  ℕ, ◌+◌, true, Option, none, some, Text, text_eq, text_beq_iff, codes, ◌≡◌, ◌≢◌, refl, arith,
  subst, sym, ap, is_some, ◌⊎◌, inl, inr, Option-cases, Bool-cases,
}
use rustice.Prelude.HashMap.{get, insert, get-insert}
use rustice.Executor.Sessions.{
  UserSession, Sessions, update_session_expiry, create_session, new_session,
  session_inactivity_expiration_seconds,
}
use rustice.Rest.Headers.{HeaderMap, get_str, header_value, extract_token_from_auth}
use rustice.Rest.Spcs.{
  Ingress, SpcsCallerTokenClaims, TokenizedSession, spcs_current_user_header,
  spcs_current_user_token_header, spcs_ingress_session_from_headers, spcs_caller_token_claims_match,
  validated_spcs_caller_token_claims, spcs_caller_issuer_matches, spcs_caller_audience_matches,
  spcs_session_of, session_of, identity, is_text,
}
use rustice.Rest.Session.{
  Result, ok, err, Server, Parts, session_of_token, session_of_extension, trusted_session,
  locate_session, get_or_create_session, from_request_parts,
}

-- A caller's token of the right type and context, for this host and from this issuer.
pub record IsCallerToken (ingress : Ingress) (headers : HeaderMap) (token : Text) : Type 0 where
  pub claims : SpcsCallerTokenClaims
  pub decoded : ingress.decode token ≡ some claims
  pub sct : claims.token_type ≡ some (codes "SCT")
  pub caller : claims.call_context ≡ some (codes "CALLER")
  pub audience : spcs_caller_audience_matches claims headers ≡ true
  pub issuer : spcs_caller_issuer_matches ingress claims ≡ true

-- The ingress is trusted and names a user, and the caller's token is good where there is one.
abbrev pub FromIngress : Server → HeaderMap → Type 0
FromIngress server headers =
    (server.trust_spcs_ingress ≡ true)
    × (user : Text) × (header_value headers spcs_current_user_header ≡ some user)
    × ((header_value headers spcs_current_user_token_header ≡ none)
        ⊎ ((token : Text) × (header_value headers spcs_current_user_token_header ≡ some token)
            × IsCallerToken server.ingress headers token))

-- The token of the authorization header is valid for the host, and holds the session.
abbrev pub FromToken : Server → HeaderMap → TokenizedSession → Type 0
FromToken server headers session =
    (token : Text) × (host : Text) × (extract_token_from_auth headers ≡ some token)
    × (get_str (codes "host") headers ≡ some host)
    × (server.get_claims_validate_jwt_token token host server.jwt_secret ≡ ok session)

-- There is no token, and a layer has put the session into the request.
abbrev pub FromLayer : Parts → TokenizedSession → Type 0
FromLayer req session =
    (extract_token_from_auth req.headers ≡ none) × (req.extension ≡ some session)

abbrev pub IsAuthentic : Server → Parts → TokenizedSession → Type 0
IsAuthentic server req session =
    FromIngress server req.headers ⊎ (FromToken server req.headers session ⊎ FromLayer req session)

-- The session is there and lives for the whole period of inactivity from now on.
abbrev pub Renewed : ℕ → Text → Sessions → Sessions → Type 0
Renewed now id sessions after =
    ((row : UserSession) × (get id after ≡ some row)
      × (row.expiry ≡ now + session_inactivity_expiration_seconds))
    × ((other : Text) → other ≢ id → get other after ≡ get other sessions)

-- A session that is let in is authentic and renewed; an error leaves the sessions as they were.
abbrev pub Admits : Server → ℕ → Parts → Sessions → Result TokenizedSession × Sessions → Type 0
Admits server now req sessions (ok session, after) =
    IsAuthentic server req session × Renewed now session.session_id sessions after
Admits server now req sessions (err e, after) = after ≡ sessions

abbrev Kept : ℕ → TokenizedSession → Sessions → Result TokenizedSession × Sessions → Type 0
Kept now session sessions (ok s, after) =
    (s ≡ session) × Renewed now session.session_id sessions after
Kept now session sessions (err e, after) = after ≡ sessions

pub create_session_absent :
    (now : ℕ) (id : Text) (sessions : Sessions)
    → get id sessions ≡ none
    → (create_session now id sessions).1 ≡ insert id (new_session now id) sessions
unfolding create_session
create_session_absent now id sessions gone = rw (gone, create_session) refl

new_session_expiry :
    (now : ℕ) (id : Text)
    → (new_session now id).expiry ≡ now + session_inactivity_expiration_seconds
unfolding new_session
new_session_expiry now id = refl

insert-Renewed :
    (now : ℕ) (id : Text) (row : UserSession) (sessions : Sessions)
    → row.expiry ≡ now + session_inactivity_expiration_seconds
    → Renewed now id sessions (insert id row sessions)
insert-Renewed now id row sessions e = (
  (row, ground (arith, get-insert id id row sessions, text_beq_iff id id), e),
  λ other apart. ground (arith, get-insert id other row sessions, text_beq_iff id other, apart),
)

is_text_lem : (expected : Text) (o : Option Text) → is_text expected o ≡ true → o ≡ some expected
is_text_lem expected none h = absurd (cc h)
is_text_lem expected (some text) h = ap some ((text_beq_iff text expected).0 h)

module _ (server : Server) where
  get_or_create_session-Kept :
      (now : ℕ) (session : TokenizedSession) (sessions : Sessions)
      → Kept now session sessions (get_or_create_session server now session sessions)
  unfolding get_or_create_session update_session_expiry
  get_or_create_session-Kept now session sessions =
      elim (Option-cases (get session.session_id sessions)) [
        | inr (row, found) ↦
            rw (found, update_session_expiry)
              (refl, insert-Renewed now session.session_id _ sessions refl)
        | inl gone ↦ elim (Option-cases (server.set_up session.session_id)) [
          | inr (message, failed) ↦ rw (gone, update_session_expiry, failed) refl
          | inl ready ↦
              rw (gone, update_session_expiry, ready)
                (
                  refl,
                  subst (Renewed now session.session_id sessions)
                      (sym (create_session_absent now session.session_id sessions gone))
                      (insert-Renewed now session.session_id (new_session now session.session_id)
                        sessions (new_session_expiry now session.session_id)),
                )
        ]
      ]

  matching-IsCallerToken :
      (headers : HeaderMap) (token : Text) (claims : SpcsCallerTokenClaims)
      → server.ingress.decode token ≡ some claims
      → spcs_caller_token_claims_match server.ingress claims headers ≡ true
      → IsCallerToken server.ingress headers token
  unfolding spcs_caller_token_claims_match
  matching-IsCallerToken headers token claims decoded h = record {
    claims = claims;
    decoded = decoded;
    sct = is_text_lem (codes "SCT") claims.token_type (ground (arith, h));
    caller = is_text_lem (codes "CALLER") claims.call_context (ground (arith, h));
    audience = ground (arith, h);
    issuer = ground (arith, h);
  }

  validated-IsCallerToken :
      (headers : HeaderMap) (token : Text)
      → is_some (validated_spcs_caller_token_claims server.ingress token headers) ≡ true
      → IsCallerToken server.ingress headers token
  unfolding validated_spcs_caller_token_claims
  validated-IsCallerToken headers token h = elim (Option-cases (server.ingress.decode token)) [
    | inl bad ↦ absurd (ground (arith, bad, h))
    | inr (claims, decoded) ↦
        matching-IsCallerToken headers token claims decoded (ground (arith, decoded, h))
  ]

  -- The ingress answers a session only for a user whose token, if there is one, is good.
  AcceptedUser : HeaderMap → Type 0
  AcceptedUser headers =
      (user : Text) × (header_value headers spcs_current_user_header ≡ some user)
      × ((header_value headers spcs_current_user_token_header ≡ none)
          ⊎ ((token : Text) × (header_value headers spcs_current_user_token_header ≡ some token)
              × IsCallerToken server.ingress headers token))

  ingress-AcceptedUser :
      (headers : HeaderMap)
      → is_some (spcs_ingress_session_from_headers server.ingress headers) ≡ true
      → AcceptedUser headers
  unfolding AcceptedUser spcs_ingress_session_from_headers spcs_session_of session_of identity
  ingress-AcceptedUser headers h =
      elim (Option-cases (header_value headers spcs_current_user_header)) [
        | inl nobody ↦ absurd (ground (arith, nobody, h))
        | inr (user, named) ↦
            elim (Option-cases (header_value headers spcs_current_user_token_header)) [
              | inl without ↦ (user, named, inl without)
              | inr (token, given) ↦
                  elim (Option-cases
                    (validated_spcs_caller_token_claims server.ingress token headers)) [
                      | inl bad ↦ absurd (ground (arith, named, given, bad, h))
                      | inr (claims, good) ↦ (
                        user,
                        named,
                        inr (token, given, validated-IsCallerToken headers token (rw good refl)),
                      )
                    ]
            ]
      ]

  trusted_session-FromIngress :
      (headers : HeaderMap) (session : TokenizedSession)
      → trusted_session server headers ≡ some session
      → FromIngress server headers
  unfolding trusted_session AcceptedUser
  trusted_session-FromIngress headers session h = elim (Bool-cases server.trust_spcs_ingress) [
    | inr distrust ↦ absurd (ground (arith, distrust, h))
    | inl trust ↦
        let found = rw trust at h in
        let user = ingress-AcceptedUser headers (ground (arith, found)) in
        (trust, user.0, user.1, user.2)
  ]

  locate_session-IsAuthentic :
      (req : Parts) (session : TokenizedSession)
      → locate_session server req ≡ ok session
      → IsAuthentic server req session
  unfolding locate_session session_of_token session_of_extension
  locate_session-IsAuthentic req session h =
      elim (Option-cases (trusted_session server req.headers)) [
        | inr (found, trusted) ↦ inl (trusted_session-FromIngress req.headers found trusted)
        | inl distrusted ↦ elim (Option-cases (extract_token_from_auth req.headers)) [
          | inr (token, given) ↦ elim (Option-cases (get_str (codes "host") req.headers)) [
            | inr (host, named) ↦
                inr (inl (token, host, given, named, ground (arith, distrusted, given, named, h)))
            | inl nowhere ↦ absurd (ground (arith, distrusted, given, nowhere, h))
          ]
          | inl without ↦ elim (Option-cases req.extension) [
            | inr (put, there) ↦ inr (inr (without, ground (arith, distrusted, without, there, h)))
            | inl nothing ↦ absurd (ground (arith, distrusted, without, nothing, h))
          ]
        ]
      ]

  Kept-Admits :
      (now : ℕ) (req : Parts) (session : TokenizedSession) (sessions : Sessions)
      (r : Result TokenizedSession × Sessions)
      → IsAuthentic server req session
      → Kept now session sessions r
      → Admits server now req sessions r
  Kept-Admits now req session sessions (ok s, after) authentic kept = (
    subst (IsAuthentic server req) (sym kept.0) authentic,
    subst (λ x. Renewed now x.session_id sessions after) (sym kept.0) kept.1,
  )
  Kept-Admits now req session sessions (err e, after) authentic kept = kept

  located-Admits :
      (now : ℕ) (req : Parts) (sessions : Sessions) (r : Result TokenizedSession)
      → locate_session server req ≡ r
      → Admits server now req sessions (elim r as (λ _. Result TokenizedSession × Sessions) [
        | ok session ↦ get_or_create_session server now session sessions
        | err e ↦ (err e, sessions)
      ])
  located-Admits now req sessions (ok session) found =
      Kept-Admits now req session sessions _ (locate_session-IsAuthentic req session found)
        (get_or_create_session-Kept now session sessions)
  located-Admits now req sessions (err e) refused = refl

  -- A request that is let in is authentic: a trusted ingress names its user, whose token, where there is
  -- one, is a good caller's token; or the token of its authorization header is valid for its host and
  -- holds the session; or it has no such token, and the session comes from a layer. Its session is
  -- there afterwards and lives for the whole period of inactivity, and the other sessions are as they
  -- were. A request that is refused changes no session.
  pub from_request_parts-Admits :
      (now : ℕ) (req : Parts) (sessions : Sessions)
      → Admits server now req sessions (from_request_parts server now req sessions)
  unfolding from_request_parts
  from_request_parts-Admits now req sessions =
      located-Admits now req sessions (locate_session server req) refl
