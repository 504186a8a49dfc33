-- ===== src/Rest/Examples.antt =====
-- The theorems about the REST sessions at concrete inputs.
use rustice.Prelude.{
  true, none, some, List, [], ◌∷◌, Text, codes, text_eq, is_whitespace, ◌≡◌, refl, arith,
}
use rustice.Prelude.HashMap.{get, insert}
use rustice.Rest.Headers.{
  HeaderMap, cookies_from_header, header_value, get_str, get_all, extract_token_from_auth,
  extract_token_from_cookie, cookies_of,
}
use rustice.Rest.Spcs.{
  spcs_ingress_session_from_headers, spcs_session_of, SpcsCallerTokenClaims, one,
}
use rustice.Rest.Session.{
  trusted_session, Server, Parts, ok, err, bad_auth_token, from_request_parts,
}
use rustice.Rest.Layer.{new_tokenized, serve}
use rustice.Rest.Cookies.{is_plain, cookie_header, insert_all}
use rustice.Rest.Admission.{Admits, from_request_parts-Admits}
use rustice.Rest.Return.{clean_up, serve-serve}

abbrev cookies : List (Text × Text)
cookies = (codes "a", codes "1") ∷ (codes "session_id", codes "u7") ∷ []

abbrev claims : SpcsCallerTokenClaims
claims = record {
  token_type = some (codes "SCT");
  aud = some (one (codes "app"));
  iss = none;
  call_context = some (codes "CALLER");
  sub = some (codes "u");
}

abbrev server : Server
server = record {
  ingress = record { decode = λ t. some claims; var = λ name. none; digest = λ parts. codes "0f" };
  trust_spcs_ingress = true;
  jwt_secret = codes "secret";
  get_claims_validate_jwt_token = λ token host secret. err (bad_auth_token (codes "expired"));
  set_up = λ id. none;
}

abbrev ingress_request : Parts
ingress_request = record {
  headers =
      (codes "host", some (codes "app.snowflakecomputing.app:443"))
      ∷ (codes "sf-context-current-user", some (codes "u"))
      ∷ (codes "sf-context-current-user-token", some (codes "t"))
      ∷ [];
  extension = none;
}

from_request_parts-Admits_example :
    Admits server 100 ingress_request [] (from_request_parts server 100 ingress_request [])
from_request_parts-Admits_example = from_request_parts-Admits server 100 ingress_request []

-- The second request of a browser
abbrev second_headers : HeaderMap
second_headers =
    (codes "host", some (codes "app.snowflakecomputing.app:443"))
    ∷ (codes "cookie", some (codes "a=1; session_id=u7"))
    ∷ []

serve-serve_example :
    let first = serve server 100 (codes "u7") [] [] in
    let second =
      serve server 300
        (codes "u8")
        second_headers
        (clean_up ((200, 0) ∷ (250, 0) ∷ []) first.0.1) in
    (first.0.0 ≡ ok (new_tokenized (codes "u7")))
    × (first.1 ≡ some (codes "u7"))
    × (second.0.0 ≡ ok (new_tokenized (codes "u7")))
    × (second.1 ≡ none)
unfolding trusted_session spcs_ingress_session_from_headers spcs_session_of header_value get_str
    get_all extract_token_from_auth extract_token_from_cookie get insert cookies_from_header
    cookies_of is_plain is_whitespace cookie_header insert_all
serve-serve_example =
    serve-serve server 100 300 ((200, 0) ∷ (250, 0) ∷ []) (codes "u7") (codes "u8") []
      second_headers cookies [] refl refl refl refl tt refl (omega arith, (omega arith, tt)) refl
      refl (refl, (refl, (refl, (refl, (refl, tt)))), refl)
