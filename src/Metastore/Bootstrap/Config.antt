-- ===== src/Metastore/Bootstrap/Config.antt =====
-- The configuration of crates/catalog-metastore/src/metastore_bootstrap_config.rs, the errors of its
-- application, and the monad of the steps.
use rustice.Prelude.{Bool, Option, none, some, List, Text, codes}
use rustice.Functions.Json.{Value}
use rustice.Metastore.Error
use rustice.Metastore.Error.{Error, Result, Outcome, done, failed}
use rustice.Metastore.External.{External}
use rustice.Metastore.Models.{TableIdent, VolumeIdent}
use rustice.Metastore.Volume.{Volume}
use rustice.Metastore.State.{Metastore, Method}

pub record VolumeEntry (x : External) : Type 0 where
  pub volume : Volume x
  pub database : Option Text
  pub should_refresh : Bool

pub record DatabaseEntry : Type 0 where
  pub ident : Text
  pub volume : VolumeIdent
  pub should_refresh : Bool

pub record SchemaEntry : Type 0 where
  pub database : Text
  pub schema : Text

pub record TableEntry : Type 0 where
  pub database : Text
  pub schema : Text
  pub table : Text
  pub metadata_location : Text

-- `TableEntry::table_ident`
abbrev pub table_ident : TableEntry → TableIdent
table_ident entry = record { table = entry.table; schema = entry.schema; database = entry.database }

pub record MetastoreBootstrapConfig (x : External) : Type 0 where
  pub volumes : List (VolumeEntry x)
  pub databases : List DatabaseEntry
  pub schemas : List SchemaEntry
  pub tables : List TableEntry

-- The errors of `apply`; those of the reading of a configuration do not occur in it.
pub data ConfigError : Type 0 where
  metastore : Error → ConfigError
  -- the table, then its database
  table_database_missing : Text → Text → ConfigError
  -- the table, then its volume
  table_volume_missing : Text → VolumeIdent → ConfigError
  -- the table, then the reason
  invalid_metadata_location : Text → Text → ConfigError
  invalid_metadata : ConfigError
  -- the table, then the foreign error
  metadata_fetch metadata_parse : Text → Text → ConfigError

pub data ConfigResult (A : Type 0) : Type 0 where
  ok : A → ConfigResult A
  err : ConfigError → ConfigResult A
  blocked : ConfigResult A

-- What `apply_table` takes from other crates: a get from an object store and its bytes, `strip_prefix`
-- of `iceberg_rust`, and the readers and writers of JSON.
pub record Reader (x : External) : Type 0 where
  pub strip_prefix : Text → Text
  pub get : x.ObjectStore → Text → Outcome Text
  pub bytes : Text → Outcome Text
  pub value_from_slice : Text → Outcome Value
  pub to_vec : Value → Outcome Text
  pub metadata_from_slice : Text → Outcome x.TableMetadata

abbrev pub default_volume_name : Text
default_volume_name = codes "embucket"

abbrev pub default_database_name : Text
default_database_name = codes "embucket"

abbrev pub default_schema_name : Text
default_schema_name = codes "public"

abbrev pub Setup : External → Type 0 → Type 0
Setup x A = Metastore x → ConfigResult A × Metastore x

-- `.context(MetastoreSnafu)`
abbrev pub of_result : {A : Type 0} → Result A → ConfigResult A
of_result (Error.ok a) = ok a
of_result (Error.err e) = err (metastore e)
of_result Error.blocked = blocked

-- `.context(…)` on a foreign error
abbrev pub of_outcome : {A : Type 0} → (Text → ConfigError) → Outcome A → ConfigResult A
of_outcome wrap (done a) = ok a
of_outcome wrap (failed message) = err (wrap message)

abbrev pub ok_or : {A : Type 0} → ConfigError → Option A → ConfigResult A
ok_or e none = err e
ok_or e (some a) = ok a

-- `?` between results that do not touch the metastore.
abbrev pub and_then : {A B : Type 0} → ConfigResult A → (A → ConfigResult B) → ConfigResult B
and_then (ok a) f = f a
and_then (err e) f = err e
and_then blocked f = blocked

module _ {x : External} where
  abbrev pub pure : {A : Type 0} → A → Setup x A
  pure a s = (ok a, s)

  abbrev pub lift : {A : Type 0} → ConfigResult A → Setup x A
  lift r s = (r, s)

  abbrev pub call : {A : Type 0} → Method x A → Setup x A
  call m s = let r = m s in (of_result r.0, r.1)

  abbrev pub continue :
      {A B : Type 0} → ConfigResult A × Metastore x → (A → Setup x B) → ConfigResult B × Metastore x
  continue (ok a, s) f = f a s
  continue (err e, s) f = (err e, s)
  continue (blocked, s) f = (blocked, s)

  infixl 5 ◌>>=◌ ◌>>◌
  abbrev pub ◌>>=◌ : {A B : Type 0} → Setup x A → (A → Setup x B) → Setup x B
  ◌>>=◌ m f s = continue (m s) f

  abbrev pub ◌>>◌ : {B : Type 0} → Setup x (Unit {0}) → Setup x B → Setup x B
  ◌>>◌ m k s = continue (m s) (λ _. k)

  -- `if found.is_none() { create }`, where the row that is created is dropped.
  abbrev pub or_create : {A B : Type 0} → Option A → Setup x B → Setup x (Unit {0})
  or_create none create = do row ← create; pure tt
  or_create (some a) create = pure tt
