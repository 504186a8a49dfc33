-- ===== src/Query/Names.antt =====
-- The resolution of names in statements (crates/executor/src/query.rs, utils.rs).
use rustice.Prelude.{
  ℕ, not, Option, none, some, List, [], ◌∷◌, Text, codes, is_empty, filter, map, join, split,
  to_ascii_lowercase,
}
use rustice.Query.Error.{
  Result, ok, err, invalid_table_identifier, invalid_schema_identifier, ◌>>=◌,
}
use rustice.Query.Variables.{Session, get_session_variable}

-- `Ident` and `ObjectNamePart` of `sqlparser`; a function is its text.
pub record Ident : Type 0 where
  pub value : Text
  pub quote_style : Option ℕ

pub data ObjectNamePart : Type 0 where
  identifier : Ident → ObjectNamePart
  function : Text → ObjectNamePart

-- `Ident::new`
abbrev pub unquoted : Text → Ident
unquoted value = record { value = value; quote_style = none }

-- `TableReference`, `ResolvedTableReference` and `SchemaReference` of DataFusion
pub data TableReference : Type 0 where
  bare : Text → TableReference
  partial : Text → Text → TableReference
  full : Text → Text → Text → TableReference

pub record ResolvedTableReference : Type 0 where
  pub catalog : Text
  pub schema : Text
  pub table : Text

pub data SchemaReference : Type 0 where
  bare : Text → SchemaReference
  full : Text → Text → SchemaReference

-- What the resolution takes from other crates: `IdentNormalizer::normalize` of an identifier without
-- quotes, `TableReference::resolve` with a database and a schema, and how a part of a name is printed.
pub record Sql : Type 0 where
  pub normalize : Text → Text
  pub resolve : TableReference → Text → Text → ResolvedTableReference
  pub part_text : ObjectNamePart → Text

-- What names are resolved against: the session, and the database and the schema of the query's context.
pub record Scope (Options : Type 0) : Type 0 where
  pub session : Session Options
  pub database : Option Text
  pub schema : Option Text

abbrev pub or_else : Option Text → Option Text → Option Text
or_else (some s) t = some s
or_else none t = t

abbrev pub unwrap_or : Text → Option Text → Text
unwrap_or d none = d
unwrap_or d (some s) = s

abbrev pub NormalizedIdent : Type 0
NormalizedIdent = List Ident

unfoldable pub normalize_resolved_ref : ResolvedTableReference → ResolvedTableReference
normalize_resolved_ref r = record {
  catalog = to_ascii_lowercase r.catalog;
  schema = to_ascii_lowercase r.schema;
  table = to_ascii_lowercase r.table;
}

-- `String::from(&NormalizedIdent)`
unfoldable pub ident_text : NormalizedIdent → Text
ident_text ident = join (codes ".") (map (λ i. i.value) ident)

unfoldable pub from_resolved : ResolvedTableReference → NormalizedIdent
from_resolved r = unquoted r.catalog ∷ unquoted r.schema ∷ unquoted r.table ∷ []

module _ {Options : Type 0} (sql : Sql) (scope : Scope Options) where
  unfoldable pub current_database : Text
  current_database =
      unwrap_or (codes "embucket")
        (or_else (get_session_variable (codes "database") scope.session) scope.database)

  unfoldable pub current_schema : Text
  current_schema =
      unwrap_or (codes "public")
        (or_else (get_session_variable (codes "schema") scope.session) scope.schema)

  abbrev normalized : Text → Option ℕ → Ident
  normalized value (some quote) = record { value = value; quote_style = some quote }
  normalized value none = unquoted (sql.normalize value)

  unfoldable pub normalize_ident : Ident → Ident
  normalize_ident ident = normalized ident.value ident.quote_style

  unfoldable pub normalize_part : ObjectNamePart → Ident
  normalize_part (identifier ident) = normalize_ident ident
  normalize_part (function f) = unquoted []

  unfoldable pub normalize_parts : List ObjectNamePart → NormalizedIdent
  normalize_parts parts = filter (λ i. not (is_empty i.value)) (map normalize_part parts)

  -- The database and the schema in front of a name that has not all three parts
  unfoldable pub fill_in : List ObjectNamePart → Result (List ObjectNamePart)
  fill_in (t ∷ []) =
      ok (identifier (unquoted current_database) ∷ identifier (unquoted current_schema) ∷ t ∷ [])
  fill_in (s ∷ t ∷ []) = ok (identifier (unquoted current_database) ∷ s ∷ t ∷ [])
  fill_in (d ∷ s ∷ t ∷ []) = ok (d ∷ s ∷ t ∷ [])
  fill_in parts = err (invalid_table_identifier (join (codes ".") (map sql.part_text parts)))

  unfoldable pub resolve_table_object_name : List ObjectNamePart → Result NormalizedIdent
  resolve_table_object_name table_ident =
      fill_in table_ident >>= λ parts. ok (normalize_parts parts)

  unfoldable pub resolve_table_ref : TableReference → ResolvedTableReference
  resolve_table_ref table_ref =
      normalize_resolved_ref (sql.resolve table_ref current_database current_schema)

  unfoldable pub table_reference : NormalizedIdent → Result TableReference
  table_reference (t ∷ []) = ok (TableReference.bare t.value)
  table_reference (s ∷ t ∷ []) = ok (partial s.value t.value)
  table_reference (d ∷ s ∷ t ∷ []) = ok (TableReference.full d.value s.value t.value)
  table_reference ident = err (invalid_table_identifier (ident_text ident))

  unfoldable pub resolve_ident : NormalizedIdent → Result ResolvedTableReference
  resolve_ident ident = table_reference ident >>= λ r. ok (resolve_table_ref r)

  unfoldable pub resolve_schema_ref : SchemaReference → SchemaReference
  resolve_schema_ref (SchemaReference.bare schema) = SchemaReference.full current_database schema
  resolve_schema_ref (SchemaReference.full catalog schema) = SchemaReference.full catalog schema

  unfoldable pub schema_ref_to_resolved : SchemaReference → ResolvedTableReference
  schema_ref_to_resolved (SchemaReference.bare schema) = record {
    catalog = current_database;
    schema = schema;
    table = [];
  }
  schema_ref_to_resolved (SchemaReference.full catalog schema) = record {
    catalog = catalog;
    schema = schema;
    table = [];
  }

  unfoldable pub schema_parts : Text → List Text → Result SchemaReference
  schema_parts ident (s ∷ []) = ok (SchemaReference.full current_database (sql.normalize s))
  schema_parts ident (d ∷ s ∷ []) = ok (SchemaReference.full (sql.normalize d) (sql.normalize s))
  schema_parts ident parts = err (invalid_schema_identifier ident)

  unfoldable pub resolve_schema_name : Text → Result SchemaReference
  resolve_schema_name ident = schema_parts ident (split b'.' ident)
