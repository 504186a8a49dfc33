-- ===== src/Query/Variables.antt =====
-- Session variables (crates/functions/src/session_params.rs, crates/executor/src/session.rs) and USE
-- (crates/executor/src/query.rs). Numbers are their text. The options of DataFusion are the type `Options`.
use rustice.Prelude.{
  ℕ, Bool, true, false, ◌||◌, ◌==◌, Option, none, some, List, [], ◌∷◌, Text, text_eq, codes,
  is_empty, is_some, strip_prefix, to_ascii_lowercase, if◌then◌else◌,
}
use rustice.Prelude.HashMap.{HashMap, get, insert, remove}
use rustice.Query.Error.{Result, ok, err, only_use_with_variables}

pub record SessionProperty : Type 0 where
  pub session_id : Option Text
  pub created_on : ℕ
  pub updated_on : ℕ
  pub value : Text
  pub property_type : Text
  pub comment : Option Text
  pub name : Text

-- A literal of `sqlparser`: `text` is one that `into_string` takes, `other` one that it does not.
pub data Value : Type 0 where
  number : Text → Value
  boolean : Bool → Value
  text : Text → Value
  other : Value

pub data ScalarValue : Type 0 where
  bool : Bool → ScalarValue
  int64 float64 utf8 : Text → ScalarValue

abbrev pub bool_text : Bool → Text
bool_text true = codes "true"
bool_text false = codes "false"

unfoldable pub value_text : Value → Text
value_text (number n) = n
value_text (boolean b) = bool_text b
value_text (text s) = s
value_text other = []

unfoldable pub value_type : Value → Text
value_type (number n) = codes "fixed"
value_type (boolean b) = codes "boolean"
value_type _ = codes "text"

unfoldable pub property : ℕ → Text → Text → Text → Option Text → SessionProperty
property now name value property_type session_id = record {
  session_id = session_id;
  created_on = now;
  updated_on = now;
  value = value;
  property_type = property_type;
  comment = none;
  name = name;
}

unfoldable pub from_value : ℕ → Text → Value → Text → SessionProperty
from_value now name option session_id =
    property now name (value_text option) (value_type option) (some session_id)

unfoldable pub from_str_value : ℕ → Text → Text → Option Text → SessionProperty
from_str_value now name value session_id = property now name value (codes "text") session_id

abbrev pub parse_bool : Text → Option Bool
parse_bool s =
    if s == codes "true" then some true else if s == codes "false" then some false else none

-- The texts that `i64` and `f64` are read from are parameters.
module _ (is_i64 is_f64 : Text → Bool) where
  unfoldable pub to_scalar_value : SessionProperty → Option ScalarValue
  to_scalar_value p =
      if p.property_type == codes "boolean"
      then elim (parse_bool p.value) [ none ↦ none | some b ↦ some (bool b) ]
      else if p.property_type == codes "fixed"
      then (if is_i64 p.value
          then some (int64 p.value)
          else if is_f64 p.value
          then some (float64 p.value)
          else none)
      else if p.property_type == codes "text"
      then some (utf8 p.value)
      else none

unfoldable pub set_properties :
    HashMap Text SessionProperty → HashMap Text SessionProperty → HashMap Text SessionProperty
set_properties [] own = own
set_properties ((key, value) ∷ properties) own = set_properties properties (insert key value own)

unfoldable pub remove_properties :
    HashMap Text SessionProperty → HashMap Text SessionProperty → HashMap Text SessionProperty
remove_properties [] own = own
remove_properties ((key, value) ∷ properties) own = remove_properties properties (remove key own)

pub record Session (Options : Type 0) : Type 0 where
  pub properties : HashMap Text SessionProperty
  pub options : Options
  pub session_id : Text

module _ {Options : Type 0} where
  unfoldable pub get_session_variable : Text → Session Options → Option Text
  get_session_variable variable s = elim (get variable s.properties) [
    | none ↦ none
    | some p ↦ some p.value
  ]

  unfoldable pub put_properties : HashMap Text SessionProperty → Session Options → Session Options
  put_properties properties s = record s { properties = properties }

-- `key.to_lowercase().starts_with("datafusion.")`; the prefix has ASCII letters only.
unfoldable pub is_datafusion : Text → Bool
is_datafusion key = is_some (strip_prefix (codes "datafusion.") (to_ascii_lowercase key))

-- The parameters for the session and those for DataFusion
unfoldable pub session_params : HashMap Text SessionProperty → HashMap Text SessionProperty
session_params [] = []
session_params ((key, prop) ∷ params) =
    let rest = session_params params in
    if is_datafusion key then rest else insert (to_ascii_lowercase key) prop rest

unfoldable pub datafusion_params : HashMap Text SessionProperty → List (Text × Text)
datafusion_params [] = []
datafusion_params ((key, prop) ∷ params) =
    let rest = datafusion_params params in
    if is_datafusion key then (to_ascii_lowercase key, prop.value) ∷ rest else rest

-- An entity of USE, its name printed
pub data Use : Type 0 where
  catalog schema database warehouse role object secondary_roles : Text → Use
  default : Use

unfoldable pub use_variable : Use → Text
use_variable (catalog n) = codes "catalog"
use_variable (schema n) = codes "schema"
use_variable (database n) = codes "database"
use_variable (warehouse n) = codes "warehouse"
use_variable (role n) = codes "role"
use_variable (object n) = codes "object"
use_variable (secondary_roles n) = codes "secondary_roles"
use_variable default = []

unfoldable pub use_value : Use → Text
use_value (catalog n) = n
use_value (schema n) = n
use_value (database n) = n
use_value (warehouse n) = n
use_value (role n) = n
use_value (object n) = n
use_value (secondary_roles n) = n
use_value default = []

module _ {Options : Type 0} (set_option : Text → Text → Options → Result (Unit {0}) × Options) where
  unfoldable pub set_options :
      List (Text × Text) → Session Options → Result (Unit {0}) × Session Options
  set_options [] s = (ok tt, s)
  set_options ((key, value) ∷ params) s =
      let (r, options) = set_option key value s.options in
      let rest = set_options params (record s { options = options }) in
      elim r [ ok _ ↦ rest | err e ↦ (err e, record s { options = options }) ]

  unfoldable pub store_params :
      Bool
      → HashMap Text SessionProperty
      → Result (Unit {0}) × Session Options
      → Result (Unit {0}) × Session Options
  store_params set params (ok _, s) = (
    ok tt,
    if set
        then put_properties (set_properties params s.properties) s
        else put_properties (remove_properties params s.properties) s,
  )
  store_params set params (err e, s) = (err e, s)

  unfoldable pub set_session_variable :
      Bool → HashMap Text SessionProperty → Session Options → Result (Unit {0}) × Session Options
  set_session_variable set params s =
      store_params set (session_params params) (set_options (datafusion_params params) s)

  -- At the time `now`; the answer is the status response.
  unfoldable pub execute_use_statement :
      ℕ → Use → Session Options → Result (Unit {0}) × Session Options
  execute_use_statement now entity s =
      if is_empty (use_variable entity) || is_empty (use_value entity)
      then (err only_use_with_variables, s)
      else set_session_variable true
          ((
            use_variable entity,
            from_str_value now (use_variable entity) (use_value entity) (some s.session_id),
          )
            ∷ [])
          s
