-- ===== src/Query/UseLaws.antt =====
-- What USE does to the names that tables are resolved against (crates/executor/src/query.rs).
use rustice.Prelude.{
  ℕ, some, [], ◌∷◌, Text, text_eq, ◌==◌, codes, is_empty, strip_prefix, to_ascii_lowercase,
  if◌then◌else◌, ◌≡◌, refl, arith,
}
use rustice.Prelude.HashMap.{insert, get-insert}
use rustice.Query.Error.{Result}
use rustice.Query.Variables.{
  SessionProperty, property, from_str_value, get_session_variable, put_properties, set_properties,
  is_datafusion, session_params, datafusion_params, set_options, store_params, set_session_variable,
  Use, catalog, schema, database, warehouse, role, object, secondary_roles, default, use_variable,
  use_value, execute_use_statement,
}
use rustice.Query.Names.{Scope, Sql, current_database, current_schema}

-- The name that USE gives, where it is not empty
abbrev pub name_or : Text → Text → Text
name_or n before = if is_empty n then before else n

-- The database of a session after USE
abbrev pub used_database : Use → Text → Text
used_database (database n) before = name_or n before
used_database _ before = before

-- and its schema
abbrev pub used_schema : Use → Text → Text
used_schema (schema n) before = name_or n before
used_schema _ before = before

module _ {Options : Type 0} (set_option : Text → Text → Options → Result (Unit {0}) × Options)
    (sql : Sql) where
  abbrev after : ℕ → Use → Scope Options → Scope Options
  after now entity scope = record scope {
    session = (execute_use_statement set_option now entity scope.session).1;
  }

  abbrev with_variable : Text → SessionProperty → Scope Options → Scope Options
  with_variable v p scope = record scope {
    session = put_properties (insert v p scope.session.properties) scope.session;
  }

  database_with_variable :
      (v : Text) (p : SessionProperty) (scope : Scope Options)
      → current_database sql (with_variable v p scope)
        ≡ (if v == codes "database" then p.value else current_database sql scope)
  unfolding current_database get_session_variable put_properties
  database_with_variable v p scope =
      ground (arith, get-insert v (codes "database") p scope.session.properties)

  schema_with_variable :
      (v : Text) (p : SessionProperty) (scope : Scope Options)
      → current_schema sql (with_variable v p scope)
        ≡ (if v == codes "schema" then p.value else current_schema sql scope)
  unfolding current_schema get_session_variable put_properties
  schema_with_variable v p scope =
      ground (arith, get-insert v (codes "schema") p scope.session.properties)

  both :
      (v : Text) (p : SessionProperty) (scope : Scope Options)
      → (current_database sql (with_variable v p scope)
          ≡ (if v == codes "database" then p.value else current_database sql scope))
        × (current_schema sql (with_variable v p scope)
            ≡ (if v == codes "schema" then p.value else current_schema sql scope))
  both v p scope = (database_with_variable v p scope, schema_with_variable v p scope)

  -- USE SCHEMA sets the schema and USE DATABASE the database, to the name as it is printed, which may have
  -- several parts; with an empty name they set nothing. Neither sets the other, and no other form of USE sets
  -- one of them.
  pub current-execute_use_statement :
      (now : ℕ) (entity : Use) (scope : Scope Options)
      → (current_database sql (after now entity scope)
          ≡ used_database entity (current_database sql scope))
        × (current_schema sql (after now entity scope)
            ≡ used_schema entity (current_schema sql scope))
  unfolding execute_use_statement use_variable use_value set_session_variable store_params
      set_options session_params datafusion_params is_datafusion set_properties strip_prefix
      to_ascii_lowercase insert from_str_value property
  current-execute_use_statement now (catalog []) scope = (refl, refl)
  current-execute_use_statement now (catalog (c ∷ n)) scope =
      both (codes "catalog")
        (from_str_value now (codes "catalog") (c ∷ n) (some scope.session.session_id)) scope
  current-execute_use_statement now (schema []) scope = (refl, refl)
  current-execute_use_statement now (schema (c ∷ n)) scope =
      both (codes "schema")
        (from_str_value now (codes "schema") (c ∷ n) (some scope.session.session_id)) scope
  current-execute_use_statement now (database []) scope = (refl, refl)
  current-execute_use_statement now (database (c ∷ n)) scope =
      both (codes "database")
        (from_str_value now (codes "database") (c ∷ n) (some scope.session.session_id)) scope
  current-execute_use_statement now (warehouse []) scope = (refl, refl)
  current-execute_use_statement now (warehouse (c ∷ n)) scope =
      both (codes "warehouse")
        (from_str_value now (codes "warehouse") (c ∷ n) (some scope.session.session_id)) scope
  current-execute_use_statement now (role []) scope = (refl, refl)
  current-execute_use_statement now (role (c ∷ n)) scope =
      both (codes "role")
        (from_str_value now (codes "role") (c ∷ n) (some scope.session.session_id)) scope
  current-execute_use_statement now (object []) scope = (refl, refl)
  current-execute_use_statement now (object (c ∷ n)) scope =
      both (codes "object")
        (from_str_value now (codes "object") (c ∷ n) (some scope.session.session_id)) scope
  current-execute_use_statement now (secondary_roles []) scope = (refl, refl)
  current-execute_use_statement now (secondary_roles (c ∷ n)) scope =
      both (codes "secondary_roles")
        (from_str_value now (codes "secondary_roles") (c ∷ n) (some scope.session.session_id)) scope
  current-execute_use_statement now default scope = (refl, refl)
