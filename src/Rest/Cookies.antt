-- ===== src/Rest/Cookies.antt =====
-- Cookies that are written into a header are read from it again
-- (crates/api-snowflake-rest-sessions/src/session.rs).
use mathlib.Core.List.{append_assoc}
use rustice.Prelude.{
  ℕ, Bool, true, false, ◌||◌, not, some, List, [], ◌∷◌, ◌++◌, Text, text_eq, nat_beq, text_beq_iff,
  trim, trim_start_matches, trim_end_matches, is_whitespace, split, ◌≡◌, refl, arith, ap, ◌∙◌, sym,
}
use rustice.Prelude.HashMap.{HashMap, insert}
use rustice.Rest.Headers.{
  HeaderMap, all_chars, insert_parts, insert_cookies, cookies_of, cookies_from_header, get_all,
}

-- No semicolon, no equals sign and no white space.
unfoldable pub is_plain : ℕ → Bool
is_plain c = not (nat_beq c b';' || (nat_beq c b'=' || is_whitespace c))

abbrev pub Plain : Text → Type 0
Plain s = all_chars is_plain s ≡ true

abbrev pub ArePlain : List (Text × Text) → Type 0
ArePlain [] = Unit {0}
ArePlain ((name, value) ∷ cookies) = Plain name × (Plain value × ArePlain cookies)

abbrev pub cookie_text : Text → Text → Text
cookie_text name value = name ++ (b'=' ∷ value)

-- The value of a `Cookie` header.
unfoldable pub cookie_header : List (Text × Text) → Text
cookie_header [] = []
cookie_header ((name, value) ∷ []) = cookie_text name value
cookie_header ((name, value) ∷ c ∷ cookies) =
    cookie_text name value ++ (b';' ∷ b' ' ∷ cookie_header (c ∷ cookies))

unfoldable pub insert_all : List (Text × Text) → HashMap Text Text → HashMap Text Text
insert_all [] m = m
insert_all ((name, value) ∷ cookies) m = insert_all cookies (insert name value m)

-- A text without the mark is one part, and a mark ends a part.
split_one :
    (mark : ℕ) (s : Text) → all_chars (λ c. not (nat_beq c mark)) s ≡ true → split mark s ≡ s ∷ []
unfolding split
split_one mark [] h = refl
split_one mark (c ∷ s) h = ground (arith, h, split_one mark s)

split_mark :
    (mark : ℕ) (s t : Text)
    → all_chars (λ c. not (nat_beq c mark)) s ≡ true
    → split mark (s ++ (mark ∷ t)) ≡ s ∷ split mark t
unfolding split
split_mark mark [] t h = ground arith
split_mark mark (c ∷ s) t h = ground (arith, h, split_mark mark s t)

-- What holds of each character of a plain text, and of a text of two.
all_chars-weaken :
    (p q : ℕ → Bool) (s : Text)
    → ((c : ℕ) → p c ≡ true → q c ≡ true)
    → all_chars p s ≡ true
    → all_chars q s ≡ true
all_chars-weaken p q [] imp h = refl
all_chars-weaken p q (c ∷ s) imp h = ground (arith, h, imp c, all_chars-weaken p q s imp)

all_chars-append :
    (p : ℕ → Bool) (s t : Text)
    → all_chars p s ≡ true
    → all_chars p t ≡ true
    → all_chars p (s ++ t) ≡ true
all_chars-append p [] t h k = k
all_chars-append p (c ∷ s) t h k = ground (arith, h, k, all_chars-append p s t)

not_space : ℕ → Bool
not_space c = not (is_whitespace c)

trim_end_plain : (s : Text) → all_chars not_space s ≡ true → trim_end_matches is_whitespace s ≡ s
unfolding trim_end_matches not_space
trim_end_plain [] h = refl
trim_end_plain (c ∷ s) h = ground (arith, h, trim_end_plain s)

trim_plain : (s : Text) → all_chars not_space s ≡ true → trim s ≡ s
unfolding trim trim_start_matches not_space
trim_plain [] h = trim_end_plain [] h
trim_plain (c ∷ s) h = ground (arith, h, trim_end_plain (c ∷ s) h)

no_semicolon : (s : Text) → Plain s → all_chars (λ c. not (nat_beq c b';')) s ≡ true
unfolding is_plain
no_semicolon s h = all_chars-weaken is_plain _ s (λ c e. ground (arith, e)) h

no_equals : (s : Text) → Plain s → all_chars (λ c. not (nat_beq c b'=')) s ≡ true
unfolding is_plain
no_equals s h = all_chars-weaken is_plain _ s (λ c e. ground (arith, e)) h

no_space : (s : Text) → Plain s → all_chars not_space s ≡ true
unfolding is_plain not_space
no_space s h = all_chars-weaken is_plain _ s (λ c e. ground (arith, e)) h

-- The white space in front of each cookie but the first.
abbrev lead : Bool → Text
lead true = b' ' ∷ []
lead false = []

no_space_equals : (s : Text) → all_chars not_space s ≡ true → all_chars not_space (b'=' ∷ s) ≡ true
unfolding not_space is_whitespace
no_space_equals s h = h

trim_space : (s : Text) → trim (b' ' ∷ s) ≡ trim s
unfolding trim trim_start_matches is_whitespace
trim_space s = refl

trim-lead : (l : Bool) (s : Text) → all_chars not_space s ≡ true → trim (lead l ++ s) ≡ s
trim-lead true s h = trim_space s ∙ trim_plain s h
trim-lead false s h = trim_plain s h

trim-cookie_text :
    (l : Bool) (name value : Text)
    → Plain name
    → Plain value
    → trim (lead l ++ cookie_text name value) ≡ cookie_text name value
unfolding not_space
trim-cookie_text l name value hn hv =
    let plain : all_chars not_space (cookie_text name value) ≡ true =
      all_chars-append not_space name (b'=' ∷ value) (no_space name hn)
        (no_space_equals value (no_space value hv)) in
    trim-lead l (cookie_text name value) plain

read_cookie :
    (l : Bool) (name value : Text) (m : HashMap Text Text)
    → Plain name
    → Plain value
    → insert_parts (split b'=' (trim (lead l ++ cookie_text name value))) m ≡ insert name value m
unfolding insert_parts
read_cookie l name value m hn hv = rw (trim-cookie_text l name value hn hv) (
    rw (split_mark b'=' name value (no_equals name hn))
      (rw (split_one b'=' value (no_equals value hv)) refl))

part_semicolon :
    (l : Bool) (name value : Text)
    → Plain name
    → Plain value
    → all_chars (λ c. not (nat_beq c b';')) (lead l ++ cookie_text name value) ≡ true
part_semicolon l name value hn hv =
    let text =
      all_chars-append (λ c. not (nat_beq c b';')) name (b'=' ∷ value) (no_semicolon name hn)
        (no_semicolon value hv) in
    elim l
      as (λ k. all_chars (λ c. not (nat_beq c b';')) (lead k ++ cookie_text name value) ≡ true) [
        | true ↦ text
        | false ↦ text
      ]

no_cookie : (l : Bool) (m : HashMap Text Text) → insert_cookies (split b';' (lead l ++ [])) m ≡ m
unfolding insert_cookies insert_parts split trim trim_start_matches trim_end_matches is_whitespace
no_cookie true m = refl
no_cookie false m = refl

insert_cookies-cookie_header :
    (l : Bool) (cookies : List (Text × Text)) (m : HashMap Text Text)
    → ArePlain cookies
    → insert_cookies (split b';' (lead l ++ cookie_header cookies)) m ≡ insert_all cookies m
unfolding insert_cookies insert_all cookie_header
insert_cookies-cookie_header l [] m h = no_cookie l m
insert_cookies-cookie_header l ((name, value) ∷ []) m h =
    rw (split_one b';' _ (part_semicolon l name value h.0 h.1.0))
      (read_cookie l name value m h.0 h.1.0)
insert_cookies-cookie_header l ((name, value) ∷ c ∷ cookies) m h =
    let rest = b' ' ∷ cookie_header (c ∷ cookies) in
    let e : lead l ++ (cookie_text name value ++ (b';' ∷ rest))
        ≡ (lead l ++ cookie_text name value) ++ (b';' ∷ rest) =
      sym (append_assoc (lead l) (cookie_text name value) (b';' ∷ rest)) in
    ap (λ s. insert_cookies (split b';' s) m) e
    ∙ (ap (λ parts. insert_cookies parts m)
          (split_mark b';' (lead l ++ cookie_text name value) rest
            (part_semicolon l name value h.0 h.1.0))
        ∙ (ap (insert_cookies (split b';' rest)) (read_cookie l name value m h.0 h.1.0)
            ∙ insert_cookies-cookie_header true (c ∷ cookies) (insert name value m) h.1.1))

-- The cookies of a header are those that were written into it, when their names and values have no
-- semicolon, equals sign or white space; of two with one name the later counts.
pub cookies_from_header-cookie_header :
    (name : Text) (cookies : List (Text × Text))
    → ArePlain cookies
    → cookies_from_header ((name, some (cookie_header cookies)) ∷ []) name ≡ insert_all cookies []
unfolding cookies_from_header cookies_of get_all
cookies_from_header-cookie_header name cookies h =
    rw ((text_beq_iff name name).1 refl) (insert_cookies-cookie_header false cookies [] h)

-- The same of any headers with one header of that name
pub cookies_from_header-get_all :
    (headers : HeaderMap) (name : Text) (cookies : List (Text × Text))
    → ArePlain cookies
    → get_all name headers ≡ some (cookie_header cookies) ∷ []
    → cookies_from_header headers name ≡ insert_all cookies []
unfolding cookies_from_header cookies_of
cookies_from_header-get_all headers name cookies h e =
    rw e (insert_cookies-cookie_header false cookies [] h)
