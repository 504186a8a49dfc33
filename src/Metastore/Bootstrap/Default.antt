-- ===== src/Metastore/Bootstrap/Default.antt =====
-- The default configuration (crates/catalog-metastore/src/metastore_bootstrap_config.rs) on any
-- metastore.
use rustice.Prelude.{
  true, false, some, [], Text, text_eq, pair_eq, triple_eq, ◌≡◌, refl, ap, ◌∙◌, arith, Option-cases,
  inl, inr, subst,
}
use rustice.Prelude.HashMap.{get, contains_key}
use rustice.Metastore.External.{External, World}
use rustice.Metastore.Volume.{memory, get_object_store, volume_type_store}
use rustice.Metastore.State.{Metastore, ensure_volume, schema_key}
use rustice.Metastore.Volumes.{get_volume, create_volume}
use rustice.Metastore.Databases.{get_database, create_database, get_schema, create_schema}
use rustice.Metastore.Bootstrap.Config.{
  VolumeEntry, Reader, default_schema_name, default_database_name, default_volume_name, Setup, ok,
  pure, ◌>>◌, continue,
}
use rustice.Metastore.Bootstrap.{
  ensure_schema, make_database, ensure_database, make_volume, volume_database, apply_volume,
  for_each, apply, bootstrap,
}
use rustice.Metastore.Bootstrap.Settles.{Settles, Ensures}
use rustice.Metastore.Bootstrap.Again.{
  Has, HasVolume, make_volume-Settles, make_database-Settles, apply_volume-Settles, apply-Settles,
}

module _ {x : External} where
  abbrev pub Succeeds : Setup x (Unit {0}) → Metastore x → Type 0
  Succeeds f s = (t : Metastore x) × (f s ≡ (ok tt, t))

  then-Succeeds :
      (f g : Setup x (Unit {0})) (P : Metastore x → Type 0) (s : Metastore x)
      → Settles f P
      → Succeeds f s
      → ((t : Metastore x) → P t → Succeeds g t)
      → Succeeds (f >> g) s
  then-Succeeds f g P s settles (t, e) next =
      let there = subst (Ensures s P) e (settles.ensures s) in
      let rest = next t there.1 in (rest.0, ap (λ r. continue r (λ _. g)) e ∙ rest.1)

  -- A memory volume always has a store.
  make_volume-Succeeds :
      (w : World x) (ident : Text) (s : Metastore x)
      → Succeeds (make_volume w (record { ident = ident; volume = memory })) s
  unfolding make_volume get_volume create_volume get_object_store volume_type_store
  make_volume-Succeeds w ident s = elim (Option-cases (get ident s.volumes)) [
    | inl gone ↦ rw (gone, gone) (_, refl)
    | inr (row, found) ↦ rw found (s, refl)
  ]

  make_database-Succeeds :
      (w : World x) (ident volume : Text) (s : Metastore x)
      → contains_key volume s.volumes ≡ true
      → Succeeds (make_database w ident volume false) s
  unfolding make_database get_database create_database ensure_volume
  make_database-Succeeds w ident volume s there = elim (Option-cases (get ident s.databases)) [
    | inr (row, found) ↦ rw found (s, refl)
    | inl gone ↦ elim (Option-cases (get volume s.volumes)) [
      | inl missing ↦ absurd (ground (arith, missing, there))
      | inr (row, found) ↦ rw (gone, found, gone) (_, refl)
    ]
  ]

  ensure_schema-Succeeds :
      (w : World x) (database schema : Text) (s : Metastore x)
      → contains_key database s.databases ≡ true
      → Succeeds (ensure_schema w database schema) s
  unfolding ensure_schema get_schema create_schema
  ensure_schema-Succeeds w database schema s parent =
      elim (Option-cases
        (get (schema_key (record { schema = schema; database = database })) s.schemas)) [
          | inr (row, found) ↦ rw found (s, refl)
          | inl gone ↦ rw (gone, gone, parent) (_, refl)
        ]

  ensure_database-Succeeds :
      (w : World x) (ident volume : Text) (s : Metastore x)
      → contains_key volume s.volumes ≡ true
      → Succeeds (ensure_database w ident volume false) s
  unfolding ensure_database
  ensure_database-Succeeds w ident volume s there =
      then-Succeeds _ _ _ s (make_database-Settles w ident volume false)
        (make_database-Succeeds w ident volume s there)
        (λ t made. ensure_schema-Succeeds w ident default_schema_name t made)

  abbrev volume_entry : VolumeEntry x
  volume_entry = record {
    volume = record { ident = default_volume_name; volume = memory };
    database = some default_database_name;
    should_refresh = false;
  }

  apply_volume-Succeeds : (w : World x) (s : Metastore x) → Succeeds (apply_volume w volume_entry) s
  unfolding apply_volume volume_database
  apply_volume-Succeeds w s =
      then-Succeeds _ _ _ s (make_volume-Settles w volume_entry.volume)
        (make_volume-Succeeds w default_volume_name s)
        (λ t made. ensure_database-Succeeds w default_database_name default_volume_name t made)

  -- The default configuration is applied to any metastore without an error, and what it asks for is
  -- there then.
  pub apply-bootstrap :
      (w : World x) (r : Reader x) (s : Metastore x)
      → (t : Metastore x) × (apply w r bootstrap s ≡ (ok tt, t)) × Has bootstrap t
  unfolding apply bootstrap for_each
  apply-bootstrap w r s =
      let rest = record (bootstrap {x = x}) { volumes = [] } in
      let (t, e) = apply_volume-Succeeds w s in
      let made =
        (subst (Ensures s (HasVolume volume_entry)) e
          ((apply_volume-Settles w volume_entry).ensures s)).1 in
      let has_rest : Has rest t = (tt, ((made.1, tt), ((made.1.1, tt), tt))) in
      (
        t,
        ap (λ q. continue (continue q (λ _. pure tt)) (λ _. apply w r rest)) e
            ∙ (apply-Settles w r rest).again t has_rest,
        ((made, tt), ((made.1, tt), ((made.1.1, tt), tt))),
      )
