-- ===== src/Metastore/RoundTrips.antt =====
-- What the methods of the metastore answer after one another
-- (crates/catalog-metastore/src/metastore.rs).
use rustice.Prelude.{
  Bool, false, not, ◌≡◌, text_eq, pair_eq, triple_eq, Text, none, some, ◌==◌, ◌&&◌, arith, beq_refl,
  if◌then◌else◌, join, codes,
}
use rustice.Prelude.HashMap.{get, contains_key, get-insert, get-remove}
use rustice.Metastore.Error.{ok, err, schema_already_exists, database_not_found, volume_in_use}
use rustice.Metastore.External.{External, World}
use rustice.Metastore.Models.{RwObject, new_row, Schema, SchemaIdent, VolumeIdent, Database}
use rustice.Metastore.Volume.{Volume, get_object_store}
use rustice.Metastore.State.{Metastore, put_schema, put_volume, schema_key}
use rustice.Metastore.Volumes.{
  create_volume, volume_object_store, drop_databases, delete_volume, databases_in_use, drop_volume,
}
use rustice.Metastore.Consistency.{Unchecked, IsConsistent, in_use_of_row}
use rustice.Metastore.Databases.{create_schema, get_schema}

module _ {x : External} (w : World x) (s : Metastore x) where
  -- `create_schema` makes one of three answers. If the schema exists under the lower-case key, or else
  -- the database is missing, it is an error and nothing changes; else it is the new row, and then
  -- `get_schema` finds it under every spelling of the identifier, and finds what it found under others.
  create_schema-get_schema :
      (ident other : SchemaIdent) (schema : Schema)
      → let t = (create_schema w ident schema s).1 in
        (create_schema w ident schema s).0 ≡ (
          if contains_key (schema_key ident) s.schemas
          then err (schema_already_exists ident.schema ident.database)
          else (if contains_key ident.database s.databases
              then ok (new_row w.now schema)
              else err (database_not_found ident.database)))
        × ((get_schema other t).0 ≡ (
            if not (contains_key (schema_key ident) s.schemas)
              && (contains_key ident.database s.databases && schema_key ident == schema_key other)
            then ok (some (new_row w.now schema))
            else (get_schema other s).0))
  unfolding create_schema get_schema put_schema
  create_schema-get_schema ident other schema = (
    ground arith,
    ground
        (arith, get-insert (schema_key ident) (schema_key other) (new_row w.now schema) s.schemas),
  )

  -- A volume that has been created has its own object store from then on: asking for it, whether or
  -- not the lock is held, gives the store that was made for it and changes nothing.
  create_volume-volume_object_store :
      (later : World x) (locked : Bool) (name : VolumeIdent) (v : Volume x)
      (row : RwObject (Volume x)) (store : x.ObjectStore)
      → get_object_store w v ≡ ok store
      → (create_volume w name v s).0 ≡ ok row
      → volume_object_store later locked name (create_volume w name v s).1
        ≡ (ok (some store), (create_volume w name v s).1)
  unfolding create_volume volume_object_store put_volume
  create_volume-volume_object_store later locked name v row store made created =
      ground (arith, get-insert name name store s.object_store_cache, beq_refl name)

  -- While a database row names the volume, in a consistent metastore, `delete_volume` without the
  -- cascade is refused, its error lists the identifiers of such rows, and nothing changes.
  delete_volume-in_use :
      (u : Unchecked) (name : VolumeIdent) (d : Text) (row : RwObject Database)
      → IsConsistent u s
      → get d s.databases ≡ some row
      → row.value.volume ≡ name
      → delete_volume name false s
        ≡ (err (volume_in_use (join (codes ", ") (databases_in_use name s))), s)
  unfolding delete_volume databases_in_use
  delete_volume-in_use u name d row h found named =
      ground
        (arith, in_use_of_row name d row s.databases found named (h.database_ident d row found))

  -- A deleted volume is gone, with its object store, and every other volume is as it was.
  delete_volume-get_volume :
      (name other : VolumeIdent) (cascade : Bool)
      → (delete_volume name cascade s).0 ≡ ok tt
      → let t = (delete_volume name cascade s).1 in
        get other t.volumes ≡ (if name == other then none else get other s.volumes)
        × (get other t.object_store_cache ≡ (
            if name == other && contains_key name s.volumes
            then none
            else get other s.object_store_cache))
  unfolding delete_volume drop_volume drop_databases
  delete_volume-get_volume name other cascade e = (
    ground (arith, get-remove name other s.volumes),
    ground (arith, get-remove name other s.object_store_cache),
  )
