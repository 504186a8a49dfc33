-- ===== src/Metastore/Updates.antt =====
-- `update_table` of `InMemoryMetastore` (crates/catalog-metastore/src/metastore.rs): the commit of an
-- update to a table's metadata.
use rustice.Prelude.{Text, text_eq, pair_eq, triple_eq}
use rustice.Prelude.HashMap.{get}
use rustice.Metastore.Error
use rustice.Metastore.Error.{
  Error, Result, ok, err, context, object_store, table_already_exists, table_not_found,
  schema_not_found, volume_not_found, table_volume_missing, table_metadata_builder,
  serialize_metadata, iceberg,
}
use rustice.Metastore.External.{External, World}
use rustice.Metastore.Models.{RwObject, touch, TableIdent}
use rustice.Metastore.Requirements.{TableUpdate, assert_all}
use rustice.Metastore.Metadata.{convert_add_schema_update_to_lowercase}
use rustice.Metastore.State.{
  put_table, Table, Method, pure, lift, gets, modify, ok_or, table_key, ◌>>=◌, ◌>>◌,
}
use rustice.Metastore.Tables.{not_found, put_metadata, table_object_store}

module _ {x : External} where
  -- The row after a commit.
  unfoldable pub committed :
      World x → x.TableMetadata → Text → RwObject (Table x) → RwObject (Table x)
  committed w metadata path row =
      touch w.now
        (record row { value = record row.value { metadata = metadata; metadata_location = path } })

  -- The metadata that a commit makes: the requirements hold of the old, and the updates apply.
  unfoldable pub commit_metadata :
      World x → TableUpdate x → RwObject (Table x) → Result x.TableMetadata
  commit_metadata w update row =
      Error.◌>>=◌ (assert_all x update.requirements row.value.metadata) λ _.
        Error.◌>>=◌ (convert_add_schema_update_to_lowercase update.updates)
          λ updates. context iceberg (w.apply_table_updates row.value.metadata updates)

  -- The end of `update_table`, under the lock for writing.
  unfoldable pub commit_table :
      World x → TableIdent → TableUpdate x → x.ObjectStore → Method x (RwObject (Table x))
  unfolding not_found
  commit_table w ident update store = do
    entry ← gets (λ s. get (table_key ident) s.tables)
    row ← lift (ok_or (not_found ident) entry)
    metadata ← lift (commit_metadata w update row)
    path ← put_metadata w ident store metadata
    let new = committed w metadata path row
    modify (put_table (table_key ident) new)
    pure new

  unfoldable pub update_table : World x → TableIdent → TableUpdate x → Method x (RwObject (Table x))
  unfolding not_found
  update_table w ident update = do
    found ← table_object_store w ident
    store ← lift (ok_or (not_found ident) found)
    commit_table w ident update store
