-- ===== src/Catalog/Source.antt =====
-- What the catalogs take from other crates: the providers of DataFusion and `datafusion_iceberg`, and the
-- iceberg catalog behind them. `World` is their state, which all caches over them share.
use rustice.Prelude.{Bool, Option, List, Text}
use rustice.Catalog.Method.{Result, Method, IcebergError}

pub data TableType : Type 0 where
  base view temporary : TableType

abbrev pub is_view : TableType → Bool
is_view view = Bool.true
is_view _ = Bool.false

-- The answer of `load_tabular`
pub data Loaded (A : Type 0) : Type 0 where
  loaded : A → Loaded A
  failed : IcebergError → Loaded A

pub record Source : Type 1 where
  pub World : Type 0
  pub SchemaProvider : Type 0
  pub TableProvider : Type 0
  -- `Identifier`: `try_new`, `namespace` and `name`
  pub Identifier : Type 0
  pub try_new : List Text → Result Identifier
  pub namespace : Identifier → List Text
  pub identifier_name : Identifier → Text
  -- `CreateTableBuilder`
  pub TableBuilder : Type 0
  pub table_type : TableProvider → TableType
  -- `downcast_ref::<IcebergTableBuilder>().is_some()`
  pub is_table_builder : TableProvider → Bool
  -- The methods of `CatalogProvider`
  pub schema_names : World → List Text
  pub schema : Text → World → Option SchemaProvider
  pub register_schema : Text → SchemaProvider → Method World (Option SchemaProvider)
  pub deregister_schema : Text → Bool → Method World (Option SchemaProvider)
  -- `MemorySchemaProvider::new()`
  pub memory_schema : SchemaProvider
  -- The methods of `SchemaProvider`
  pub table_names : SchemaProvider → World → List Text
  pub table : SchemaProvider → Text → World → Result (Option TableProvider)
  pub register_table : SchemaProvider → Text → TableProvider → Method World (Option TableProvider)
  pub deregister_table : SchemaProvider → Text → Method World (Option TableProvider)
  pub table_exist : SchemaProvider → Text → World → Bool
  -- The methods of the iceberg `Catalog`; a table goes by its namespace and its name.
  pub create_namespace : Text → Method World (Unit {0})
  pub drop_namespace : Text → Method World (Unit {0})
  pub load_tabular : Text → Text → World → Loaded TableProvider
  pub drop_table : Text → Text → Method World (Unit {0})
  -- `CreateTableBuilder::build`
  pub build : TableBuilder → Text → Text → Method World TableProvider
  -- `mirror().schema_exists` and `mirror().register_table` of the iceberg catalog provider
  pub mirror_schema_exists : Text → World → Bool
  pub mirror_register_table : Identifier → Method World (Unit {0})
