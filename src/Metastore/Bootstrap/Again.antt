-- ===== src/Metastore/Bootstrap/Again.antt =====
-- A configuration that has been applied is there, and is applied again without a change
-- (crates/catalog-metastore/src/metastore_bootstrap_config.rs).
use rustice.Prelude.{
  subst, Bool, true, Option, none, some, List, [], ◌∷◌, Text, text_eq, pair_eq, triple_eq, ◌≡◌,
  refl, arith, Option-cases, Bool-cases, inl, inr,
}
use rustice.Prelude.HashMap.{get, contains_key, insert_there}
use rustice.Metastore.Error.{Result-cases}
use rustice.Metastore.External.{External, World}
use rustice.Metastore.Models.{SchemaIdent}
use rustice.Metastore.Volume.{Volume, get_object_store}
use rustice.Metastore.State.{
  ensure_volume, Metastore, schema_key, table_key, put_volume, put_database, put_schema, put_table,
}
use rustice.Metastore.Volumes.{get_volume, create_volume}
use rustice.Metastore.Databases.{get_database, create_database, get_schema, create_schema}
use rustice.Metastore.Tables.{table_exists, register_table}
use rustice.Metastore.Bootstrap.Config.{
  VolumeEntry, TableEntry, table_ident, MetastoreBootstrapConfig, Reader, default_schema_name,
  Setup, ok, lift,
}
use rustice.Metastore.Bootstrap.{
  ensure_schema, make_database, ensure_database, make_volume, volume_database, apply_volume,
  add_table, register_entry, read_metadata, apply_table, for_each, apply,
}
use rustice.Metastore.Bootstrap.Settles.{
  Grows, Grows-refl, Ensures, Ensures-bind, lift-Ensures, Settles, pure-Settles, then-Settles,
  put_volume-Grows, put_database-Grows, put_schema-Grows, put_table-Grows,
}

module _ {x : External} where
  pub ensure_schema-Settles :
      (w : World x) (database schema : Text)
      → Settles (ensure_schema w database schema) (λ s.
        contains_key (schema_key (record { schema = schema; database = database })) s.schemas
        ≡ true)
  unfolding ensure_schema get_schema create_schema put_schema
  ensure_schema-Settles w database schema =
      let ident : SchemaIdent = record { schema = schema; database = database } in
      record {
        again = λ s p. elim (Option-cases (get (schema_key ident) s.schemas)) [
          | inl gone ↦ absurd (ground (arith, gone, p))
          | inr (row, found) ↦ rw found refl
        ];
        ensures = λ s. elim (Option-cases (get (schema_key ident) s.schemas)) [
          | inr (row, found) ↦ rw found (Grows-refl s, rw found refl)
          | inl gone ↦ elim (Bool-cases (contains_key database s.databases)) [
            | inl parent ↦
                rw (gone, gone, parent)
                  (
                    put_schema-Grows (schema_key ident) _ s,
                    insert_there (schema_key ident) _ s.schemas,
                  )
            | inr orphan ↦ rw (gone, gone, orphan) tt
          ]
        ];
        stays = λ s t g p. g.schemas (schema_key ident) p;
      }

  pub make_database-Settles :
      (w : World x) (ident volume : Text) (should_refresh : Bool)
      → Settles
          (make_database w ident volume should_refresh)
          (λ s. contains_key ident s.databases ≡ true)
  unfolding make_database get_database create_database ensure_volume put_database
  make_database-Settles w ident volume should_refresh = record {
    again = λ s p. elim (Option-cases (get ident s.databases)) [
      | inl gone ↦ absurd (ground (arith, gone, p))
      | inr (row, found) ↦ rw found refl
    ];
    ensures = λ s. elim (Option-cases (get ident s.databases)) [
      | inr (row, found) ↦ rw found (Grows-refl s, rw found refl)
      | inl gone ↦ elim (Option-cases (get volume s.volumes)) [
        | inl missing ↦ rw (gone, missing) tt
        | inr (row, found) ↦
            rw (gone, found, gone) (put_database-Grows ident _ s, insert_there ident _ s.databases)
      ]
    ];
    stays = λ s t g p. g.databases ident p;
  }

  pub make_volume-Settles :
      (w : World x) (volume : Volume x)
      → Settles (make_volume w volume) (λ s. contains_key volume.ident s.volumes ≡ true)
  unfolding make_volume get_volume create_volume put_volume
  make_volume-Settles w volume = record {
    again = λ s p. elim (Option-cases (get volume.ident s.volumes)) [
      | inl gone ↦ absurd (ground (arith, gone, p))
      | inr (row, found) ↦ rw found refl
    ];
    ensures = λ s. elim (Option-cases (get volume.ident s.volumes)) [
      | inr (row, found) ↦ rw found (Grows-refl s, rw found refl)
      | inl gone ↦ elim (Result-cases (get_object_store w volume)) [
        | inl (store, made) ↦
            rw (gone, made, gone)
              (put_volume-Grows volume.ident _ store s, insert_there volume.ident _ s.volumes)
        | inr (inl (e, refused)) ↦ rw (gone, refused) tt
        | inr (inr stuck) ↦ rw (gone, stuck) tt
      ]
    ];
    stays = λ s t g p. g.volumes volume.ident p;
  }

  abbrev pub HasSchema : Text → Text → Metastore x → Type 0
  HasSchema database schema s =
      contains_key (schema_key (record { schema = schema; database = database })) s.schemas ≡ true

  abbrev pub HasDatabase : Text → Metastore x → Type 0
  HasDatabase ident s =
      (contains_key ident s.databases ≡ true) × HasSchema ident default_schema_name s

  pub ensure_database-Settles :
      (w : World x) (ident volume : Text) (should_refresh : Bool)
      → Settles (ensure_database w ident volume should_refresh) (HasDatabase ident)
  unfolding ensure_database
  ensure_database-Settles w ident volume should_refresh =
      then-Settles _ _ _ _ (make_database-Settles w ident volume should_refresh)
        (ensure_schema-Settles w ident default_schema_name)

  abbrev pub HasDatabaseOf : Option Text → Metastore x → Type 0
  HasDatabaseOf none s = Unit {0}
  HasDatabaseOf (some database) s = HasDatabase database s

  pub volume_database-Settles :
      (w : World x) (entry : VolumeEntry x) (database : Option Text)
      → Settles (volume_database w entry database) (HasDatabaseOf database)
  unfolding volume_database
  volume_database-Settles w entry none = pure-Settles
  volume_database-Settles w entry (some database) =
      ensure_database-Settles w database entry.volume.ident entry.should_refresh

  abbrev pub HasVolume : VolumeEntry x → Metastore x → Type 0
  HasVolume entry s =
      (contains_key entry.volume.ident s.volumes ≡ true) × HasDatabaseOf entry.database s

  pub apply_volume-Settles :
      (w : World x) (entry : VolumeEntry x) → Settles (apply_volume w entry) (HasVolume entry)
  unfolding apply_volume
  apply_volume-Settles w entry =
      then-Settles _ _ _ _ (make_volume-Settles w entry.volume)
        (volume_database-Settles w entry entry.database)

  abbrev pub HasTable : TableEntry → Metastore x → Type 0
  HasTable entry s = contains_key (table_key (table_ident entry)) s.tables ≡ true

  register_entry-Ensures :
      (w : World x) (r : Reader x) (entry : TableEntry) (volume : Text) (s : Metastore x)
      → Ensures s (HasTable entry) (register_entry w r entry volume s)
  unfolding register_entry get_volume register_table put_table
  register_entry-Ensures w r entry volume s = elim (Option-cases (get volume s.volumes)) [
    | inl gone ↦ rw gone tt
    | inr (row, found) ↦ rw found (
        Ensures-bind s _ (HasTable entry) (lift (read_metadata w r entry row.value) s) _
          (lift-Ensures s (read_metadata w r entry row.value))
          (λ metadata t h. (
            put_table-Grows (table_key (table_ident entry)) _ t,
            insert_there (table_key (table_ident entry)) _ t.tables,
          )))
  ]

  add_table-Ensures :
      (w : World x) (r : Reader x) (entry : TableEntry) (s : Metastore x)
      → Ensures s (HasTable entry) (add_table w r entry s)
  unfolding add_table get_database
  add_table-Ensures w r entry s = elim (Option-cases (get entry.database s.databases)) [
    | inl gone ↦ rw gone tt
    | inr (row, found) ↦ rw found (
        Ensures-bind s _ (HasTable entry) (ensure_schema w entry.database entry.schema s) _
          ((ensure_schema-Settles w entry.database entry.schema).ensures s)
          (λ u t h. register_entry-Ensures w r entry row.value.volume t))
  ]

  apply_table-Settles :
      (w : World x) (r : Reader x) (entry : TableEntry)
      → Settles (apply_table w r entry) (HasTable entry)
  unfolding apply_table table_exists
  apply_table-Settles w r entry = record {
    again = λ s p. rw p refl;
    ensures = λ s. elim (Bool-cases (contains_key (table_key (table_ident entry)) s.tables)) [
      | inl there ↦ rw there (Grows-refl s, there)
      | inr absent ↦ rw absent (add_table-Ensures w r entry s)
    ];
    stays = λ s t g p. g.tables (table_key (table_ident entry)) p;
  }

  abbrev pub All : {E : Type 0} → (E → Metastore x → Type 0) → List E → Metastore x → Type 0
  All P [] s = Unit {0}
  All P (e ∷ es) s = P e s × All P es s

  for_each-Settles :
      {E : Type 0} (f : E → Setup x (Unit {0})) (P : E → Metastore x → Type 0)
      → ((e : E) → Settles (f e) (P e))
      → (es : List E) → Settles (for_each f es) (All P es)
  unfolding for_each
  for_each-Settles f P h [] = pure-Settles
  for_each-Settles f P h (e ∷ es) =
      then-Settles (f e) (for_each f es) (P e) (All P es) (h e) (for_each-Settles f P h es)

  -- What a configuration asks for.
  abbrev pub Has : MetastoreBootstrapConfig x → Metastore x → Type 0
  Has config s =
      All HasVolume config.volumes s
      × (All (λ db. HasDatabase db.ident) config.databases s
          × (All (λ entry. HasSchema entry.database entry.schema) config.schemas s
              × All HasTable config.tables s))

  pub apply-Settles :
      (w : World x) (r : Reader x) (config : MetastoreBootstrapConfig x)
      → Settles (apply w r config) (Has config)
  unfolding apply
  apply-Settles w r config =
      then-Settles _ _ _ _
        (for_each-Settles (apply_volume w) HasVolume (apply_volume-Settles w) config.volumes)
        (then-Settles _ _ _ _
          (for_each-Settles _ _
            (λ db. ensure_database-Settles w db.ident db.volume db.should_refresh) config.databases)
          (then-Settles _ _ _ _
            (for_each-Settles _ _ (λ entry. ensure_schema-Settles w entry.database entry.schema)
              config.schemas)
            (for_each-Settles (apply_table w r) HasTable (apply_table-Settles w r) config.tables)))

  -- When a configuration has been applied without an error, what it asks for is there, nothing that was
  -- there before is gone, and whenever it is applied again, with any clock, object stores and foreign
  -- readers, to what the metastore then is or has grown to, it succeeds and changes nothing.
  pub apply-again :
      (w w' : World x) (r r' : Reader x) (config : MetastoreBootstrapConfig x) (s t u : Metastore x)
      → apply w r config s ≡ (ok tt, t)
      → Grows t u
      → Has config t × Grows s t × (apply w' r' config u ≡ (ok tt, u))
  apply-again w w' r r' config s t u e g =
      let first = apply-Settles w r config in
      let there = subst (Ensures s (Has config)) e (first.ensures s) in
      (there.1, there.0, (apply-Settles w' r' config).again u (first.stays t u g there.1))
