-- ===== src/Rest/Headers.antt =====
-- The headers of a request and what crates/api-snowflake-rest-sessions/src/session.rs reads from them:
-- trimmed values, the token of the authorization header, and the cookies.
use rustice.Prelude.{
  ℕ, Bool, true, false, ◌&&◌, ◌||◌, not, Option, none, some, List, [], ◌∷◌, ◌++◌, Text, text_eq,
  codes, nat_beq, leb, text_beq, is_empty, length, if◌then◌else◌, trim, trim_end_matches,
  strip_prefix, split, split_once, eq_ignore_ascii_case,
}
use rustice.Prelude.HashMap.{HashMap, get, insert}

-- A header is its name in lower case and its value, `none` where `to_str` fails.
abbrev pub HeaderMap : Type 0
HeaderMap = List (Text × Option Text)

-- `headers.get_all(name)`
unfoldable pub get_all : Text → HeaderMap → List (Option Text)
get_all name [] = []
get_all name ((n, v) ∷ headers) =
    let rest = get_all name headers in if text_beq n name then v ∷ rest else rest

abbrev first : List (Option Text) → Option Text
first [] = none
first (v ∷ vs) = v

-- `headers.get(name).and_then(|value| value.to_str().ok())`
unfoldable pub get_str : Text → HeaderMap → Option Text
get_str name headers = first (get_all name headers)

abbrev pub non_empty : Text → Option Text
non_empty [] = none
non_empty (c ∷ s) = some (c ∷ s)

unfoldable pub header_value : HeaderMap → Text → Option Text
header_value headers name = elim (get_str name headers) [
  | none ↦ none
  | some value ↦ non_empty (trim value)
]

-- The characters of a token's parts.
unfoldable pub is_token_char : ℕ → Bool
is_token_char c =
    (leb b'A' c && leb c b'Z')
    || ((leb b'a' c && leb c b'z')
        || ((leb b'0' c && leb c b'9') || (nat_beq c b'_' || nat_beq c b'-')))

unfoldable pub is_hex_char : ℕ → Bool
is_hex_char c =
    (leb b'A' c && leb c b'F') || ((leb b'a' c && leb c b'f') || (leb b'0' c && leb c b'9'))

abbrev pub all_chars : (ℕ → Bool) → Text → Bool
all_chars p [] = true
all_chars p (c ∷ s) = p c && all_chars p s

abbrev pub is_part : Text → Bool
is_part s = not (is_empty s) && all_chars is_token_char s

unfoldable pub is_jwt : List Text → Bool
is_jwt (a ∷ b ∷ c ∷ []) = is_part a && (is_part b && is_part c)
is_jwt _ = false

abbrev pub is_hex : ℕ → Text → Bool
is_hex n s = nat_beq (length s) n && all_chars is_hex_char s

unfoldable pub is_uuid : List Text → Bool
is_uuid (a ∷ b ∷ c ∷ d ∷ e ∷ []) =
    is_hex 8 a && (is_hex 4 b && (is_hex 4 c && (is_hex 4 d && is_hex 12 e)))
is_uuid _ = false

-- What stands up to the quote, if it is a token.
unfoldable pub quoted_token : Option (Text × Text) → Option Text
quoted_token none = none
quoted_token (some (token, rest)) =
    if is_jwt (split b'.' token) || is_uuid (split b'-' token) then some token else none

-- The regular expression at the start of the text.
unfoldable pub token_at : Option Text → Option Text
token_at none = none
token_at (some s) = quoted_token (split_once b'"' s)

-- `re.captures(auth)`: at the first place where the expression fits. No character of a token is a
-- quote, so that a token ends at the first one.
unfoldable pub captures : Text → Option Text
captures [] = none
captures (c ∷ s) =
    let rest = captures s in
    elim (token_at (strip_prefix (codes "Snowflake Token=" ++ (b'"' ∷ [])) (c ∷ s))) [
      | none ↦ rest
      | some token ↦ some token
    ]

unfoldable pub extract_token_from_auth : HeaderMap → Option Text
extract_token_from_auth headers = elim (get_str (codes "authorization") headers) [
  | none ↦ none
  | some auth ↦ captures auth
]

-- `parts[0]` and `parts[1]`, where there are two
unfoldable pub insert_parts : List Text → HashMap Text Text → HashMap Text Text
insert_parts (name ∷ value ∷ rest) cookies_map = insert name value cookies_map
insert_parts parts cookies_map = cookies_map

unfoldable pub insert_cookies : List Text → HashMap Text Text → HashMap Text Text
insert_cookies [] cookies_map = cookies_map
insert_cookies (cookie ∷ cookies) cookies_map =
    insert_cookies cookies (insert_parts (split b'=' (trim cookie)) cookies_map)

unfoldable pub cookies_of : List (Option Text) → HashMap Text Text → HashMap Text Text
cookies_of [] cookies_map = cookies_map
cookies_of (none ∷ values) cookies_map = cookies_of values cookies_map
cookies_of (some cookie_str ∷ values) cookies_map =
    cookies_of values (insert_cookies (split b';' cookie_str) cookies_map)

unfoldable pub cookies_from_header : HeaderMap → Text → HashMap Text Text
cookies_from_header headers header_name = cookies_of (get_all header_name headers) []

-- SESSION_ID_COOKIE_NAME
abbrev pub session_id_cookie_name : Text
session_id_cookie_name = codes "session_id"

unfoldable pub extract_token_from_cookie : HeaderMap → Option Text
extract_token_from_cookie headers =
    get session_id_cookie_name (cookies_from_header headers (codes "cookie"))

abbrev pub or_whole : Text → Option (Text × Text) → Text
or_whole value none = value
or_whole value (some (host, rest)) = host

abbrev pub or_else {ℓ} : {A : Type ℓ} → Option A → Option A → Option A
or_else none o = o
or_else (some a) o = some a

abbrev pub unwrap_or {ℓ} : {A : Type ℓ} → A → Option A → A
unwrap_or d none = d
unwrap_or d (some a) = a

abbrev pub is_dot : ℕ → Bool
is_dot c = nat_beq c b'.'

-- `value.strip_prefix("https://").or_else(…).unwrap_or(value)`
unfoldable pub strip_scheme : Text → Text
strip_scheme value =
    unwrap_or value
      (or_else (strip_prefix (codes "https://") value) (strip_prefix (codes "http://") value))

unfoldable pub normalized_url_host : Text → Option Text
normalized_url_host value =
    let stripped = strip_scheme (trim value) in
    let host = trim_end_matches is_dot (or_whole stripped (split_once b'/' stripped)) in
    non_empty (or_whole host (split_once b':' host))

unfoldable pub issuer_matches : Text → Text → Bool
issuer_matches issuer expected_host = elim (normalized_url_host issuer) [
  | none ↦ false
  | some issuer_host ↦ elim (normalized_url_host expected_host) [
    | none ↦ false
    | some host ↦ eq_ignore_ascii_case issuer_host host
  ]
]
