-- ===== src/Metastore/Deadlock.antt =====
-- `create_table` holds the state's lock for writing while it looks for the object store of its volume
-- (crates/catalog-metastore/src/metastore.rs): what keeps it from waiting for that lock itself.
use rustice.Prelude.{true, false, ◌≡◌, List, Option, some, text_eq, inl, inr, arith, Text}
use rustice.Prelude.HashMap.{contains_key}
use rustice.Metastore.Error.{is_blocked, Result-cases}
use rustice.Metastore.External.{External, World}
use rustice.Metastore.Models.{VolumeIdent, TableIdent}
use rustice.Metastore.State.{Metastore, new, ensure_volume, ensure_database}
use rustice.Metastore.Volumes.{volume_object_store}
use rustice.Metastore.Requirements.{TableCreateRequest}
use rustice.Metastore.Tables.{
  create_table, store_table, write_table, put_metadata, table_object_store_from_request,
  volume_of_request, request_metadata, location_of_request,
}
use rustice.Metastore.Calls.{Call, run}
use rustice.Metastore.Cache.{IsCached, run-IsCached, new-IsCached}

module _ {x : External} {s : Metastore x} (w : World x) (h : IsCached s) where
  store_from_request-returns :
      (ident : TableIdent) (name : VolumeIdent)
      → is_blocked (table_object_store_from_request w ident (some name) s).0 ≡ false
  unfolding table_object_store_from_request volume_object_store ensure_volume
  store_from_request-returns ident name = ground (arith, h.stored name)

  put_metadata-returns :
      (t : Metastore x) (ident : TableIdent) (store : x.ObjectStore) (metadata : x.TableMetadata)
      → is_blocked (put_metadata w ident store metadata t).0 ≡ false
  unfolding put_metadata
  put_metadata-returns t ident store metadata = ground arith

  write_table-returns :
      (t : Metastore x) (ident : TableIdent) (request : TableCreateRequest) (volume : VolumeIdent)
      (metadata : x.TableMetadata) (store : x.ObjectStore)
      → is_blocked (write_table w ident request volume metadata store t).0 ≡ false
  unfolding write_table
  write_table-returns t ident request volume metadata store =
      ground (arith, put_metadata-returns t ident store metadata)

  store_table-returns :
      (ident : TableIdent) (request : TableCreateRequest) (volume : VolumeIdent)
      (metadata : x.TableMetadata)
      → is_blocked (store_table w ident request volume metadata s).0 ≡ false
  unfolding store_table
  store_table-returns ident request volume metadata =
      elim (Result-cases (table_object_store_from_request w ident (some volume) s).0) [
        | inl (store, got) ↦ ground (
          arith,
          got,
          write_table-returns (table_object_store_from_request w ident (some volume) s).1 ident
              request volume metadata store,
        )
        | inr e ↦ ground (arith, e, store_from_request-returns ident volume)
      ]

  request_metadata-returns :
      (request : TableCreateRequest) (location : Text)
      → is_blocked (request_metadata w request location) ≡ false
  unfolding request_metadata
  request_metadata-returns request location = ground arith

  volume_of_request-returns :
      (ident : TableIdent) (requested : Option VolumeIdent)
      → is_blocked (volume_of_request ident requested s) ≡ false
  unfolding volume_of_request ensure_database
  volume_of_request-returns ident requested = ground arith

  create_table-returns :
      (ident : TableIdent) (request : TableCreateRequest)
      → is_blocked (create_table w ident request s).0 ≡ false
  unfolding create_table
  create_table-returns ident request =
      elim (Result-cases (volume_of_request ident request.volume_ident s)) [
        | inl (volume, chosen) ↦
            elim (Result-cases
              (request_metadata w request (location_of_request ident request.location))) [
                | inl (metadata, built) ↦
                    ground (arith, chosen, built, store_table-returns ident request volume metadata)
                | inr e ↦ ground (
                  arith,
                  chosen,
                  e,
                  request_metadata-returns request (location_of_request ident request.location),
                )
              ]
        | inr e ↦ ground (arith, e, volume_of_request-returns ident request.volume_ident)
      ]

-- After any calls from an empty metastore, `create_table` returns: it never waits for the lock that
-- it holds itself.
pub create_table-no_deadlock :
    {x : External} (cs : List (World x × Call x)) (w : World x) (ident : TableIdent)
    (request : TableCreateRequest)
    → is_blocked (create_table w ident request (run cs new)).0 ≡ false
create_table-no_deadlock cs w ident request =
    create_table-returns w (run-IsCached cs new-IsCached) ident request

-- After any calls from an empty metastore, each volume has an object store in the cache.
pub stored-run :
    {x : External} (cs : List (World x × Call x)) (v : VolumeIdent)
    → contains_key v (run {x = x} cs new).volumes ≡ true
    → contains_key v (run {x = x} cs new).object_store_cache ≡ true
stored-run cs v = (run-IsCached cs new-IsCached).stored v
