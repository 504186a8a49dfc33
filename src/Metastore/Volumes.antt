-- ===== src/Metastore/Volumes.antt =====
-- The volume methods of `InMemoryMetastore` (crates/catalog-metastore/src/metastore.rs).
use rustice.Prelude.{
  Bool, not, ◌&&◌, Option, none, some, List, map, text_eq, pair_eq, triple_eq, ◌==◌, codes, join,
  filter, any, is_empty, if◌then◌else◌,
}
use rustice.Prelude.HashMap.{get, remove, remove_all, contains_key, keys, values}
use rustice.Metastore.Error.{ok, blocked, volume_already_exists, volume_not_found, volume_in_use}
use rustice.Metastore.External.{External, World}
use rustice.Metastore.Models.{RwObject, new_row, update_row, VolumeIdent, DatabaseIdent}
use rustice.Metastore.Volume.{Volume, volume_eq, get_object_store}
use rustice.Metastore.State.{
  Metastore, put_volume, put_store, Method, pure, lift, gets, modify, fail_if, ok_or, ◌>>=◌, ◌>>◌,
}

module _ {x : External} where
  unfoldable pub list_volumes : Method x (List (RwObject (Volume x)))
  list_volumes = gets (λ s. values s.volumes)

  unfoldable pub create_volume : World x → VolumeIdent → Volume x → Method x (RwObject (Volume x))
  create_volume w name volume = do
    store ← lift (get_object_store w volume)
    known ← gets (λ s. contains_key name s.volumes)
    fail_if known (volume_already_exists name)
    let row = new_row w.now volume
    modify (put_volume name row store)
    pure row

  unfoldable pub get_volume : VolumeIdent → Method x (Option (RwObject (Volume x)))
  get_volume name = gets (λ s. get name s.volumes)

  unfoldable pub update_volume : World x → VolumeIdent → Volume x → Method x (RwObject (Volume x))
  update_volume w name volume = do
    store ← lift (get_object_store w volume)
    found ← gets (λ s. get name s.volumes)
    entry ← lift (ok_or (volume_not_found name) found)
    let row = update_row ⦃p = volume_eq⦄ w.now volume entry
    modify (put_volume name row store)
    pure row

  -- The databases whose row names the volume, by the identifier in their row.
  unfoldable pub databases_in_use : VolumeIdent → Metastore x → List DatabaseIdent
  databases_in_use name s =
      map (λ db. db.value.ident) (filter (λ db. db.value.volume == name) (values s.databases))

  -- The removals of a cascading delete: schemas, then tables, then the databases themselves.
  unfoldable pub drop_databases : List DatabaseIdent → Metastore x → Metastore x
  drop_databases in_use s = record s {
    schemas = remove_all (filter (λ k. any (λ d. d == k.0) in_use) (keys s.schemas)) s.schemas;
    tables = remove_all (filter (λ k. any (λ d. d == k.0) in_use) (keys s.tables)) s.tables;
    databases = remove_all in_use s.databases;
  }

  -- The volume goes, and its cached object store if there was a volume.
  unfoldable pub drop_volume : VolumeIdent → Metastore x → Metastore x
  drop_volume name s = record s {
    volumes = remove name s.volumes;
    object_store_cache =
        if contains_key name s.volumes
        then remove name s.object_store_cache
        else s.object_store_cache;
  }

  unfoldable pub delete_volume : VolumeIdent → Bool → Method x (Unit {0})
  delete_volume name cascade = do
    in_use ← gets (databases_in_use name)
    fail_if (not (is_empty in_use) && not cascade) (volume_in_use (join (codes ", ") in_use))
    if cascade
        then modify (drop_databases in_use)
        else fail_if (not (is_empty in_use)) (volume_in_use (join (codes ", ") in_use))
    modify (drop_volume name)

  -- `self.get_volume` where the caller already holds the lock for writing would wait for ever.
  unfoldable pub get_volume_locked : Bool → VolumeIdent → Method x (Option (RwObject (Volume x)))
  get_volume_locked holds_write_lock name s =
      if holds_write_lock then (blocked, s) else (ok (get name s.volumes), s)

  cache_store :
      World x → VolumeIdent → Option (RwObject (Volume x)) → Method x (Option x.ObjectStore)
  cache_store w name none = pure none
  cache_store w name (some volume) = do
    store ← lift (get_object_store w volume.value)
    modify (put_store name store)
    pure (some store)

  cached_or_build :
      World x → Bool → VolumeIdent → Option x.ObjectStore → Method x (Option x.ObjectStore)
  cached_or_build w holds_write_lock name (some store) = pure (some store)
  cached_or_build w holds_write_lock name none = do
    volume ← get_volume_locked holds_write_lock name
    cache_store w name volume

  -- `volume_object_store`, told whether its caller holds the state's lock for writing.
  unfoldable pub volume_object_store :
      World x → Bool → VolumeIdent → Method x (Option x.ObjectStore)
  unfolding cached_or_build cache_store get_volume_locked
  volume_object_store w holds_write_lock name = do
    cached ← gets (λ s. get name s.object_store_cache)
    cached_or_build w holds_write_lock name cached
