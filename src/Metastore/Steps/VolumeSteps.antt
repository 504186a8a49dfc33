-- ===== src/Metastore/Steps/VolumeSteps.antt =====
-- The states that the volume methods can leave.
use rustice.Prelude.{Bool, true, false, ◌≡◌, some, text_eq, ◌⊎◌, arith, is_empty}
use rustice.Prelude.HashMap.{get}
use rustice.Metastore.Error.{ok}
use rustice.Metastore.External.{External, World}
use rustice.Metastore.Models.{VolumeIdent, RwObject, new_row, update_row}
use rustice.Metastore.Volume.{Volume, volume_eq, get_object_store}
use rustice.Metastore.State.{Metastore, put_volume, put_store}
use rustice.Metastore.Volumes.{
  create_volume, update_volume, delete_volume, databases_in_use, drop_databases, drop_volume,
  volume_object_store,
}

module _ {x : External} (s : Metastore x) where
  pub create_volume_state :
      (w : World x) (name : VolumeIdent) (volume : Volume x)
      → ((create_volume w name volume s).1 ≡ s)
        ⊎ ((store : x.ObjectStore) × (get_object_store w volume ≡ ok store)
            × ((create_volume w name volume s).1 ≡ put_volume name (new_row w.now volume) store s))
  unfolding create_volume
  create_volume_state w name volume = ground arith

  pub update_volume_state :
      (w : World x) (name : VolumeIdent) (volume : Volume x)
      → ((update_volume w name volume s).1 ≡ s)
        ⊎ ((store : x.ObjectStore) × (entry : RwObject (Volume x)) × (get_object_store w volume
              ≡ ok store)
            × (get name s.volumes ≡ some entry)
            × ((update_volume w name volume s).1
                ≡ put_volume name (update_row ⦃p = volume_eq⦄ w.now volume entry) store s))
  unfolding update_volume
  update_volume_state w name volume = ground arith

  pub delete_volume_state :
      (name : VolumeIdent) (cascade : Bool)
      → ((delete_volume name cascade s).1 ≡ s)
        ⊎ ((cascade ≡ true)
            × ((delete_volume name cascade s).1
                ≡ drop_volume name (drop_databases (databases_in_use name s) s)))
        ⊎ ((cascade ≡ false)
            × (is_empty (databases_in_use name s) ≡ true)
            × ((delete_volume name cascade s).1 ≡ drop_volume name s))
  unfolding delete_volume
  delete_volume_state name cascade = ground arith

  pub volume_object_store_state :
      (w : World x) (locked : Bool) (name : VolumeIdent)
      → ((volume_object_store w locked name s).1 ≡ s)
        ⊎ ((row : RwObject (Volume x)) × (store : x.ObjectStore) × (get name s.volumes ≡ some row)
            × (get_object_store w row.value ≡ ok store)
            × ((volume_object_store w locked name s).1 ≡ put_store name store s))
  unfolding volume_object_store
  volume_object_store_state w locked name = ground arith
