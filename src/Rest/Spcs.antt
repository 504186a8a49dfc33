-- ===== src/Rest/Spcs.antt =====
-- Sessions from the headers that the ingress of Snowpark Container Services sets
-- (crates/api-snowflake-rest-sessions/src/session.rs). `jsonwebtoken` decodes the caller's token, with
-- its expiry and its required claims; the hash of the identity and the environment are parameters too.
use rustice.Prelude.{
  text_lt, Bool, true, false, ◌&&◌, ◌||◌, not, Option, none, some, List, [], ◌∷◌, ◌++◌, Text,
  text_eq, codes, text_beq, is_empty, any, if◌then◌else◌, trim, trim_end_matches, split_once,
  is_some, join,
}
use rustice.Prelude.HashMap.{HashMap, insert}
use rustice.Rest.Headers.{
  HeaderMap, header_value, non_empty, or_whole, or_else, unwrap_or, is_dot, issuer_matches,
}

pub data JwtAudience : Type 0 where
  one : Text → JwtAudience
  many : List Text → JwtAudience

pub record SpcsCallerTokenClaims : Type 0 where
  pub token_type : Option Text
  pub aud : Option JwtAudience
  pub iss : Option Text
  pub call_context : Option Text
  pub sub : Option Text

-- What is read from elsewhere: the decoded token (`none` where its form, its expiry or a required claim
-- is wrong), `env::var`, and the hash of a sequence of texts in hexadecimal digits.
pub record Ingress : Type 0 where
  pub decode : Text → Option SpcsCallerTokenClaims
  pub var : Text → Option Text
  pub digest : List Text → Text

-- The set attributes by the names of `SessionMetadataAttr`.
abbrev pub SessionMetadata : Type 0
SessionMetadata = HashMap Text Text

pub record TokenizedSession : Type 0 where
  pub session_id : Text
  pub metadata : SessionMetadata

abbrev pub spcs_current_user_header : Text
spcs_current_user_header = codes "sf-context-current-user"

abbrev pub spcs_current_account_header : Text
spcs_current_account_header = codes "sf-context-current-account"

abbrev pub spcs_current_user_token_header : Text
spcs_current_user_token_header = codes "sf-context-current-user-token"

-- `JwtAudience::contains`
unfoldable pub contains : JwtAudience → Text → Bool
contains (one aud) expected = text_beq aud expected
contains (many audiences) expected = any (λ aud. text_beq aud expected) audiences

unfoldable pub insert_sorted : Text → List Text → List Text
insert_sorted a [] = a ∷ []
insert_sorted a (b ∷ l) =
    let rest = insert_sorted a l in if text_lt b a then b ∷ rest else a ∷ b ∷ l

unfoldable pub sort : List Text → List Text
sort [] = []
sort (a ∷ l) = insert_sorted a (sort l)

-- `JwtAudience::canonical`
unfoldable pub canonical : JwtAudience → Text
canonical (one aud) = aud
canonical (many audiences) = join (codes ",") (sort audiences)

-- The subject is there; that it differs from the user is only noted in the log.
unfoldable pub spcs_caller_subject_matches : SpcsCallerTokenClaims → Bool
spcs_caller_subject_matches claims = elim claims.sub [
  | none ↦ false
  | some sub ↦ is_some (non_empty (trim sub))
]

-- The host without its port. The dots at its end are cut off only where there is a port.
unfoldable pub normalized_host : Text → Text
normalized_host host = or_whole host (split_once b':' (trim_end_matches is_dot host))

unfoldable pub endpoint_id : Text → Text
endpoint_id host = or_whole (normalized_host host) (split_once b'.' (normalized_host host))

abbrev contains_either : Option JwtAudience → Text → Text → Bool
contains_either none host endpoint = false
contains_either (some aud) host endpoint = contains aud host || contains aud endpoint

unfoldable pub spcs_caller_audience_matches : SpcsCallerTokenClaims → HeaderMap → Bool
spcs_caller_audience_matches claims headers = elim (header_value headers (codes "host")) [
  | none ↦ true
  | some host ↦ contains_either claims.aud (normalized_host host) (endpoint_id host)
]

abbrev issuer_is : Option Text → Text → Bool
issuer_is none expected_issuer = false
issuer_is (some iss) expected_issuer = issuer_matches iss expected_issuer

abbrev pub is_text : Text → Option Text → Bool
is_text expected none = false
is_text expected (some text) = text_beq text expected

module _ (ingress : Ingress) where
  unfoldable pub expected_issuer : Option Text
  expected_issuer =
      or_else (ingress.var (codes "SNOWFLAKE_ISSUER_HOST")) (ingress.var (codes "SNOWFLAKE_HOST"))

  unfoldable pub spcs_caller_issuer_matches : SpcsCallerTokenClaims → Bool
  spcs_caller_issuer_matches claims = elim expected_issuer [
    | none ↦ true
    | some expected ↦ issuer_is claims.iss expected
  ]

  unfoldable pub spcs_caller_token_claims_match : SpcsCallerTokenClaims → HeaderMap → Bool
  spcs_caller_token_claims_match claims headers =
      if not (is_text (codes "SCT") claims.token_type)
      then false
      else if not (is_text (codes "CALLER") claims.call_context)
      then false
      else spcs_caller_subject_matches claims
        && (spcs_caller_audience_matches claims headers && spcs_caller_issuer_matches claims)

  unfoldable pub validated_spcs_caller_token_claims :
      Text → HeaderMap → Option SpcsCallerTokenClaims
  validated_spcs_caller_token_claims token headers = elim (ingress.decode token) [
    | none ↦ none
    | some claims ↦ if spcs_caller_token_claims_match claims headers then some claims else none
  ]

  abbrev audience_text : Option JwtAudience → Text
  audience_text none = []
  audience_text (some aud) = canonical aud

  -- What is hashed, with a token and without.
  unfoldable pub caller_identity : SpcsCallerTokenClaims → Text → Text → List Text
  caller_identity claims user account =
      codes "sct"
      ∷ unwrap_or [] claims.iss
      ∷ audience_text claims.aud
      ∷ unwrap_or user claims.sub
      ∷ account
      ∷ []

  unfoldable pub user_identity : Text → Text → List Text
  user_identity user account = codes "user" ∷ account ∷ user ∷ []

  -- The identity of a user, or `none` where there is a token that is rejected.
  unfoldable pub identity : Text → Text → Option Text → HeaderMap → Option (List Text)
  identity user account none headers = some (user_identity user account)
  identity user account (some token) headers =
      elim (validated_spcs_caller_token_claims token headers) [
        | none ↦ none
        | some claims ↦ some (caller_identity claims user account)
      ]

  unfoldable pub ingress_metadata : Text → Text → SessionMetadata
  ingress_metadata user account =
      let named = insert (codes "UserName") user [] in
      if is_empty account then named else insert (codes "AccountName") account named

  unfoldable pub session_of : Text → Text → Option (List Text) → Option TokenizedSession
  session_of user account none = none
  session_of user account (some parts) = some (record {
    session_id = codes "spcs-" ++ ingress.digest parts;
    metadata = ingress_metadata user account;
  })

  unfoldable pub spcs_session_of : Option Text → Text → HeaderMap → Option TokenizedSession
  spcs_session_of none account headers = none
  spcs_session_of (some user) account headers =
      session_of user account
        (identity user account (header_value headers spcs_current_user_token_header) headers)

  unfoldable pub spcs_ingress_session_from_headers : HeaderMap → Option TokenizedSession
  spcs_ingress_session_from_headers headers =
      spcs_session_of (header_value headers spcs_current_user_header)
        (unwrap_or [] (header_value headers spcs_current_account_header)) headers
