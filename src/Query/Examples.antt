-- ===== src/Query/Examples.antt =====
-- The theorems about statements at concrete inputs.
use rustice.Prelude.{
  true, none, some, List, [], ◌∷◌, Text, text_eq, codes, eq_ignore_ascii_case, split,
  to_ascii_lowercase, to_ascii_lowercase_idem, false, ◌≡◌, refl, arith,
}
use rustice.Catalog.CachingSchema
use rustice.Query.Ddl
use rustice.Query.Drop
use rustice.Query.Names
use rustice.Query.Variables
use rustice.Catalog.CatalogList
use rustice.Catalog.CachingCatalog
use rustice.Query.Error.{Result, ok, err, object_already_exists, ◌>>=◌}
use rustice.Query.Variables.{database, schema, execute_use_statement}
use rustice.Query.Names.{
  Ident, ObjectNamePart, identifier, function, unquoted, TableReference, ResolvedTableReference,
  SchemaReference, Sql, Scope, current_database, current_schema, resolve_table_object_name,
}
use rustice.Query.UseLaws.{current-execute_use_statement}
use rustice.Query.NameLaws.{resolve_table_object_name_idem}
use rustice.Prelude.HashMap.{get, insert, remove}
use rustice.Catalog.CachingCatalog.{new}
use rustice.Catalog.CatalogList.{CatalogList, new_list, put_catalog}
use rustice.Catalog.Toy.{toy, world}
use rustice.Query.Ddl.{status, InCatalog, create_catalog_schema, create_schema}
use rustice.Query.CreateLaws.{create_schema_again}
use rustice.Query.Drop.{ObjectType, Drop, DropPlan, drop_table, drop_query}
use rustice.Query.DropLaws.{HasDropped, drop_query-HasDropped}
use rustice.Query.Partition.{
  tuple, day, bucket, SchemaField, find_field, build_iceberg_partition_spec,
}
use rustice.Query.Partition.RoundTrip.{
  Entry, exprs_of, numbered, build_iceberg_partition_spec-exprs_of,
}

abbrev resolve : TableReference → Text → Text → ResolvedTableReference
resolve (TableReference.bare t) d s = record { catalog = d; schema = s; table = t }
resolve (TableReference.partial s t) d _ = record { catalog = d; schema = s; table = t }
resolve (TableReference.full d s t) _ _ = record { catalog = d; schema = s; table = t }

abbrev part_text : ObjectNamePart → Text
part_text (identifier i) = i.value
part_text (function f) = f

abbrev sql : Sql
sql = record { normalize = to_ascii_lowercase; resolve = resolve; part_text = part_text }

abbrev scope : Scope (Unit {0})
scope = record {
  session = record { properties = []; options = tt; session_id = codes "s1" };
  database = some (codes "lake");
  schema = none;
}

abbrev set_option : Text → Text → Unit {0} → Result (Unit {0}) × Unit {0}
set_option key value options = (ok tt, options)

abbrev used : Scope (Unit {0})
used = record scope {
  session = (execute_use_statement set_option 7 (schema (codes "sales.eu")) scope.session).1;
}

current-execute_use_statement_example :
    (current_database sql used ≡ codes "lake") × (current_schema sql used ≡ codes "sales.eu")
unfolding current_database current_schema Variables.get_session_variable get
current-execute_use_statement_example =
    current-execute_use_statement set_option sql 7 (schema (codes "sales.eu")) scope

abbrev orders : List Ident
orders = unquoted (codes "lake") ∷ unquoted (codes "public") ∷ unquoted (codes "orders") ∷ []

resolve_table_object_name_idem_example :
    resolve_table_object_name sql used (
      identifier (unquoted (codes "lake"))
      ∷ identifier (unquoted (codes "public"))
      ∷ identifier (unquoted (codes "orders"))
      ∷ [])
    ≡ ok orders
unfolding resolve_table_object_name Names.fill_in Names.normalize_parts Names.normalize_part
    Names.normalize_ident current_database current_schema Variables.get_session_variable get
    to_ascii_lowercase
resolve_table_object_name_idem_example =
    resolve_table_object_name_idem sql scope used to_ascii_lowercase_idem
      (identifier (unquoted (codes "Orders")) ∷ []) orders refl refl

abbrev columns : List SchemaField
columns = record { id = 1; name = codes "id" } ∷ record { id = 2; name = codes "Created" } ∷ []

abbrev entries : List Entry
entries =
    (codes "created", day, record { id = 2; name = codes "Created" })
    ∷ (codes "id", bucket 16, record { id = 1; name = codes "id" })
    ∷ []

abbrev same : Text → Text
same s = s

build_iceberg_partition_spec-exprs_of_example :
    build_iceberg_partition_spec (λ e. codes "?") same ok (tuple (exprs_of entries)) columns
    ≡ ok (record { spec_id = 0; fields = numbered 1000 entries })
unfolding find_field eq_ignore_ascii_case to_ascii_lowercase
build_iceberg_partition_spec-exprs_of_example =
    build_iceberg_partition_spec-exprs_of (λ e. codes "?") same ok (λ s h. refl) columns entries
      (tt, refl, (omega arith, refl, tt)) (omega arith)

abbrev lake : CatalogList toy (Unit {0})
lake =
    put_catalog toy (Unit {0}) (codes "lake") (new {x = toy} (codes "lake") true, world)
      (new_list toy (Unit {0}) tt)

abbrev left_to_data_fusion : DropPlan → InCatalog toy (Unit {0})
left_to_data_fusion plan s = (ok tt, s)

create_schema_again_example :
    let l =
      (create_schema toy
        (Unit {0})
        sql
        scope
        (ok (create_catalog_schema (codes "Sales") false))
        lake).1 in
    create_schema toy (Unit {0}) sql scope (ok (create_catalog_schema (codes "Sales") false)) l
    ≡ (err (object_already_exists (codes "sales")), l)
unfolding Names.resolve_schema_name Names.schema_parts split current_database to_ascii_lowercase
    Variables.get_session_variable get create_schema Ddl.create_resolved Ddl.with_catalog
    Ddl.with_found CatalogList.catalog put_catalog insert new_list new Names.schema_ref_to_resolved
    Ddl.create_schema_in Ddl.create_schema_found Ddl.answered Ddl.existing
    CachingCatalog.cache_found CachingCatalog.cache_registered CachingCatalog.cache_schema
    CachingCatalog.create_namespace_async CachingCatalog.empty_schema CachingCatalog.schema
    CachingCatalog.schema_or CachingCatalog.set_schemas
create_schema_again_example =
    create_schema_again toy (Unit {0}) sql scope (codes "Sales")
      (SchemaReference.full (codes "lake") (codes "sales")) false false lake
      (create_schema toy (Unit {0}) sql scope (ok (create_catalog_schema (codes "Sales") false))
        lake).1
      refl refl

-- DROP TABLE s.t, which the iceberg catalog has
abbrev drop_statement : Drop
drop_statement = record {
  object_type = ObjectType.table;
  names = [];
  cascade = false;
  if_exists = false;
}

abbrev drop_plan : Result DropPlan
drop_plan = ok (drop_table (TableReference.partial (codes "s") (codes "t")))

abbrev dropped : CatalogList toy (Unit {0})
dropped = (drop_query toy (Unit {0}) sql scope left_to_data_fusion drop_statement drop_plan lake).1

drop_query-HasDropped_example :
    (r : ResolvedTableReference) × (plan : DropPlan) × ((drop_plan
        >>= Drop.resolved_plan toy (Unit {0}) sql scope left_to_data_fusion)
      ≡ ok (r, plan))
    × HasDropped toy (Unit {0}) drop_statement r lake dropped
unfolding drop_query Drop.drop_object Drop.drop_planned Drop.resolved_plan Drop.drop_resolved
    Drop.drop_in Drop.check_exists Drop.check_table_found Drop.check_table Drop.in_schema
    Drop.table_checked Drop.drop_checked Drop.drop_existing Drop.drop_iceberg Drop.drop_table_found
    Ddl.with_catalog Ddl.with_found Ddl.answered Names.resolve_table_ref
    Names.normalize_resolved_ref to_ascii_lowercase current_database current_schema
    Variables.get_session_variable get CatalogList.catalog put_catalog insert remove new_list new
    CachingCatalog.schema CachingCatalog.schema_or CachingCatalog.cache_found
    CachingCatalog.cache_schema CachingCatalog.set_schemas CachingCatalog.empty_schema
    CachingSchema.table CachingSchema.table_from CachingSchema.iceberg_table
    CachingSchema.is_cached_view CachingSchema.load_fresh_iceberg_table CachingSchema.table_name
    CachingSchema.of_loaded CachingSchema.drop_table_async CachingSchema.set_tables
    CachingSchema.drops
drop_query-HasDropped_example =
    drop_query-HasDropped toy (Unit {0}) sql scope left_to_data_fusion drop_statement drop_plan lake
      dropped status tt refl
