-- ===== src/Metastore/Calls.antt =====
-- Histories of a metastore: the calls of the methods that can change its state, one after another.
-- The state's lock makes each of them atomic, but for the lookup of the object store in
-- `update_table`, which takes and releases the lock before the write; a history has no call between.
use rustice.Prelude.{Bool, false, List, [], ◌∷◌}
use rustice.Metastore.External.{External, World}
use rustice.Metastore.Models.{VolumeIdent, DatabaseIdent, Database, Schema, SchemaIdent, TableIdent}
use rustice.Metastore.Volume.{Volume}
use rustice.Metastore.Requirements.{TableCreateRequest, TableUpdate}
use rustice.Metastore.State.{Metastore, Table}
use rustice.Metastore.Volumes
use rustice.Metastore.Databases
use rustice.Metastore.Tables
use rustice.Metastore.Updates

pub data Call (x : External) : Type 0 where
  create_volume update_volume : VolumeIdent → Volume x → Call x
  delete_volume : VolumeIdent → Bool → Call x
  volume_object_store : VolumeIdent → Call x
  create_database update_database : DatabaseIdent → Database → Call x
  delete_database : DatabaseIdent → Bool → Call x
  create_schema update_schema : SchemaIdent → Schema → Call x
  delete_schema : SchemaIdent → Bool → Call x
  create_table : TableIdent → TableCreateRequest → Call x
  register_table : TableIdent → Table x → Call x
  update_table : TableIdent → TableUpdate x → Call x
  delete_table : TableIdent → Bool → Call x
  table_object_store : TableIdent → Call x

module _ {x : External} where
  -- The state that a call leaves.
  unfoldable pub step : World x → Call x → Metastore x → Metastore x
  step w (create_volume name v) s = (Volumes.create_volume w name v s).1
  step w (update_volume name v) s = (Volumes.update_volume w name v s).1
  step w (delete_volume name cascade) s = (Volumes.delete_volume name cascade s).1
  step w (volume_object_store name) s = (Volumes.volume_object_store w false name s).1
  step w (create_database name db) s = (Databases.create_database w name db s).1
  step w (update_database name db) s = (Databases.update_database w name db s).1
  step w (delete_database name cascade) s = (Databases.delete_database name cascade s).1
  step w (create_schema ident schema) s = (Databases.create_schema w ident schema s).1
  step w (update_schema ident schema) s = (Databases.update_schema w ident schema s).1
  step w (delete_schema ident cascade) s = (Databases.delete_schema ident cascade s).1
  step w (create_table ident request) s = (Tables.create_table w ident request s).1
  step w (register_table ident table) s = (Tables.register_table w ident table s).1
  step w (update_table ident update) s = (Updates.update_table w ident update s).1
  step w (delete_table ident cascade) s = (Tables.delete_table ident cascade s).1
  step w (table_object_store ident) s = (Tables.table_object_store w ident s).1

  unfoldable pub run : List (World x × Call x) → Metastore x → Metastore x
  run [] s = s
  run ((w, c) ∷ cs) s = run cs (step w c s)
