-- ===== src/Metastore/Consistency/Cascade.antt =====
-- `delete_volume` (crates/catalog-metastore/src/metastore.rs) keeps the tree of databases together,
-- with and without the cascade.
use rustice.Prelude.{
  true, false, ◌≡◌, List, some, text_eq, pair_eq, triple_eq, Text, text_beq_iff, ◌==◌, arith, any,
  is_empty,
}
use rustice.Prelude.HashMap.{get, get-remove, get-remove_all, get-remove_all-filter}
use rustice.Metastore.External.{External}
use rustice.Metastore.Models.{VolumeIdent, RwObject, Database}
use rustice.Metastore.State.{Metastore}
use rustice.Metastore.Volumes.{drop_volume, drop_databases, databases_in_use}
use rustice.Metastore.Consistency.{Unchecked, IsConsistent, in_use_of_row}

module _ {x : External} {u : Unchecked} {s : Metastore x} (h : IsConsistent u s) where
  drop_databases-IsConsistent : (names : List Text) → IsConsistent u (drop_databases names s)
  unfolding drop_databases
  drop_databases-IsConsistent names = record {
    schema_parent = λ d n e. ground (
      arith,
      h.schema_parent d n,
      get-remove_all names d s.databases,
      get-remove_all-filter (λ k. any (λ d. d == k.0) names) (d, n) s.schemas,
    );
    table_parent = λ d n t e. ground (
      arith,
      h.table_parent d n t,
      get-remove_all-filter (λ k. any (λ d. d == k.0) names) (d, n) s.schemas,
      get-remove_all-filter (λ k. any (λ d. d == k.0) names) (d, n, t) s.tables,
    );
    database_volume =
        λ d r e. ground (arith, h.database_volume d r, get-remove_all names d s.databases);
    database_ident =
        λ d r e. ground (arith, h.database_ident d r, get-remove_all names d s.databases);
  }

  -- No database that is left names the volume.
  drop_volume-IsConsistent :
      (name : VolumeIdent)
      → ((d : Text) (row : RwObject Database)
          → get d s.databases ≡ some row
          → (row.value.volume == name) ≡ false)
      → IsConsistent u (drop_volume name s)
  unfolding drop_volume
  drop_volume-IsConsistent name unused = record {
    schema_parent = h.schema_parent;
    table_parent = h.table_parent;
    database_volume = λ d r e. ground (
      arith,
      h.database_volume d r e,
      unused d r e,
      get-remove name r.value.volume s.volumes,
      text_beq_iff name r.value.volume,
      text_beq_iff r.value.volume name,
    );
    database_ident = h.database_ident;
  }

  -- A database that names the volume is dropped by the cascade.
  unused_after_drop :
      (name : VolumeIdent) (d : Text) (row : RwObject Database)
      → get d (drop_databases (databases_in_use name s) s).databases ≡ some row
      → (row.value.volume == name) ≡ false
  unfolding drop_databases databases_in_use
  unused_after_drop name d row e = ground (
    arith,
    get-remove_all (databases_in_use name s) d s.databases,
    in_use_of_row name d row s.databases,
    h.database_ident d row,
    text_beq_iff row.value.volume name,
  )

  unused_if_none :
      (name : VolumeIdent)
      → is_empty (databases_in_use name s) ≡ true
      → (d : Text) (row : RwObject Database) → get d s.databases ≡ some row
      → (row.value.volume == name) ≡ false
  unfolding databases_in_use
  unused_if_none name none_left d row e = ground (
    arith,
    in_use_of_row name d row s.databases,
    h.database_ident d row,
    text_beq_iff row.value.volume name,
  )

module _ {x : External} {u : Unchecked} {s : Metastore x} (h : IsConsistent u s) where
  pub delete_unused-IsConsistent :
      (name : VolumeIdent)
      → is_empty (databases_in_use name s) ≡ true
      → IsConsistent u (drop_volume name s)
  delete_unused-IsConsistent name none_left =
      drop_volume-IsConsistent h name (unused_if_none h name none_left)

  pub delete_cascade-IsConsistent :
      (name : VolumeIdent)
      → IsConsistent u (drop_volume name (drop_databases (databases_in_use name s) s))
  delete_cascade-IsConsistent name =
      drop_volume-IsConsistent (drop_databases-IsConsistent h (databases_in_use name s)) name
        (unused_after_drop h name)
