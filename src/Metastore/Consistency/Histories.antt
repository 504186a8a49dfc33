-- ===== src/Metastore/Consistency/Histories.antt =====
-- Every history of calls with normalised identifiers keeps the tree of databases, schemas and tables
-- together (crates/catalog-metastore/src/metastore.rs).
use rustice.Prelude.{
  Bool, true, false, not, ◌&&◌, ◌||◌, ◌==◌, List, [], ◌∷◌, text_beq_iff, ◌≡◌, refl, ap, some,
  text_eq, pair_eq, triple_eq, Text, ◌⊎◌, inl, inr, arith, to_ascii_lowercase, is_some, ℕ,
}
use rustice.Prelude.HashMap.{get, contains_key}
use rustice.Metastore.External.{External, World}
use rustice.Metastore.Models.{
  VolumeIdent, RwObject, Database, schema_ident, update_row, PartialEq, TableIdent, database_eq,
}
use rustice.Metastore.State.{
  Metastore, Table, new, schema_key, table_key, put_database, put_table, put_store, record_write,
}
use rustice.Metastore.Tables.{register_table, delete_table}
use rustice.Metastore.Calls.{Call, step, run}
use rustice.Metastore.Steps.VolumeSteps.{
  create_volume_state, update_volume_state, delete_volume_state,
}
use rustice.Metastore.Steps.DatabaseSteps.{
  create_database_state, update_database_state, delete_database_state, create_schema_state,
  update_schema_state, delete_schema_state,
}
use rustice.Metastore.Steps.TableSteps.{
  Prepared, start, cached, wrote, create_table_cases, table_object_store-Prepared,
  volume_object_store-Prepared,
}
use rustice.Metastore.Steps.UpdateSteps.{update_table_cases}
use rustice.Metastore.Consistency.{
  Unchecked, IsConsistent, put_volume-IsConsistent, put_store-IsConsistent,
  record_write-IsConsistent, put_database-IsConsistent, put_schema-IsConsistent,
  put_table-IsConsistent, drop_table-IsConsistent, drop_schema-IsConsistent,
  drop_database-IsConsistent,
}
use rustice.Metastore.Consistency.Cascade.{delete_unused-IsConsistent, delete_cascade-IsConsistent}

-- A call is normalised when a row's identifier is its key, and names are in lower case where the code looks
-- them up as they are written.
abbrev pub IsNormal : {x : External} → Call x → Type 0
IsNormal (Call.create_database name db) = db.ident ≡ name
IsNormal (Call.update_database name db) = db.ident ≡ name
IsNormal (Call.create_schema ident schema) = to_ascii_lowercase ident.database ≡ ident.database
IsNormal (Call.delete_schema ident cascade) = schema_key ident ≡ (ident.database, ident.schema)
IsNormal _ = Unit {0}

abbrev pub AllNormal : {x : External} → List (World x × Call x) → Type 0
AllNormal [] = Unit {0}
AllNormal ((w, c) ∷ cs) = IsNormal c × AllNormal cs

-- The call registers a table in a schema that is not there.
abbrev pub orphans : {x : External} → Text → Text → Call x → Metastore x → Bool
orphans d n (Call.register_table ident table) s =
    schema_key (schema_ident ident) == (d, n) && not (contains_key (d, n) s.schemas)
orphans d n _ s = false

-- The call updates a database to a volume that is not there.
abbrev pub strands : {x : External} → VolumeIdent → Call x → Metastore x → Bool
strands v (Call.update_database name db) s = db.volume == v && not (contains_key v s.volumes)
strands v _ s = false

-- Such a call is among those of a history.
abbrev pub orphaned : {x : External} → Text → Text → List (World x × Call x) → Metastore x → Bool
orphaned d n [] s = false
orphaned d n ((w, c) ∷ cs) s = orphans d n c s || orphaned d n cs (step w c s)

abbrev pub stranded : {x : External} → VolumeIdent → List (World x × Call x) → Metastore x → Bool
stranded v [] s = false
stranded v ((w, c) ∷ cs) s = strands v c s || stranded v cs (step w c s)

abbrev pub unchecked : {x : External} → List (World x × Call x) → Unchecked
unchecked calls = record {
  schemas = λ d n. orphaned d n calls new;
  volumes = λ v. stranded v calls new;
}

or_true : (b : Bool) {c : Bool} → c ≡ true → (b || c) ≡ true
or_true b h = ground (arith, h)

known : (b c : Bool) → (not c ≡ true → b ≡ true) → (b || c) ≡ true
known b true h = ground arith
known b false h = rw (h refl) refl

Prepared-IsConsistent :
    {x : External} {u : Unchecked} {s t : Metastore x}
    → IsConsistent u s
    → Prepared s t
    → IsConsistent u t
Prepared-IsConsistent h start = h
Prepared-IsConsistent h (cached name row store p found) =
    put_store-IsConsistent (Prepared-IsConsistent h p) name store
Prepared-IsConsistent h (wrote store path bytes p) =
    record_write-IsConsistent (Prepared-IsConsistent h p) store path bytes

schemas-Prepared : {x : External} {s t : Metastore x} → Prepared s t → t.schemas ≡ s.schemas
unfolding put_store record_write
schemas-Prepared start = refl
schemas-Prepared (cached name row store p found) = schemas-Prepared p
schemas-Prepared (wrote store path bytes p) = schemas-Prepared p

-- An update puts the new data into the row, or leaves the row.
value-update_row :
    {T : Type 0} ⦃p : PartialEq T⦄ (now : ℕ) (v : T) (row : RwObject T)
    → ((update_row now v row).value ≡ v) ⊎ ((update_row now v row).value ≡ row.value)
unfolding update_row
value-update_row now v row = ground arith

module _ {x : External} {u : Unchecked} {s : Metastore x} (h : IsConsistent u s) where
  -- The schema of a table is there, or may be missing.
  abbrev known_schema : TableIdent → Bool
  known_schema ident =
      let k = schema_key (schema_ident ident) in u.schemas k.0 k.1 || contains_key k s.schemas

  abbrev known_volume : VolumeIdent → Bool
  known_volume v = u.volumes v || contains_key v s.volumes

  put_table_row-IsConsistent :
      {t : Metastore x} (ident : TableIdent) (row : RwObject (Table x))
      → Prepared s t
      → known_schema ident ≡ true
      → IsConsistent u (put_table (table_key ident) row t)
  unfolding table_key schema_key
  put_table_row-IsConsistent {t} ident row p parent =
      put_table-IsConsistent (Prepared-IsConsistent h p) _ _ _ row
        (ground (arith, schemas-Prepared p))

  table_schema :
      {t : Metastore x} (ident : TableIdent) (row : RwObject (Table x))
      → Prepared s t
      → get (table_key ident) t.tables ≡ some row
      → known_schema ident ≡ true
  unfolding table_key schema_key
  table_schema {t} ident row p found =
      let above = (Prepared-IsConsistent h p).table_parent _ _ _ (ap is_some found) in
      ground (arith, schemas-Prepared p, above)

  update_database_row-IsConsistent :
      (w : World x) (name : Text) (db : Database) (entry : RwObject Database)
      → get name s.databases ≡ some entry
      → db.ident ≡ name
      → known_volume db.volume ≡ true
      → IsConsistent u (put_database name (update_row w.now db entry) s)
  update_database_row-IsConsistent w name db entry found ident volume =
      elim (value-update_row w.now db entry) [
        | inl e ↦ put_database-IsConsistent h name _ (rw e volume) (rw e ident)
        | inr e ↦
            put_database-IsConsistent h name _ (rw e (h.database_volume name entry found))
              (rw e (h.database_ident name entry found))
      ]

module _ {x : External} {u : Unchecked} {s : Metastore x} (w : World x) (h : IsConsistent u s) where
  step-IsConsistent :
      (c : Call x)
      → IsNormal c
      → ((d n : Text) → orphans d n c s ≡ true → u.schemas d n ≡ true)
      → ((v : VolumeIdent) → strands v c s ≡ true → u.volumes v ≡ true)
      → IsConsistent u (step w c s)
  unfolding step register_table delete_table schema_key table_key
  step-IsConsistent (Call.create_volume name v) a orphan strand =
      elim (create_volume_state s w name v) [
        | inl e ↦ rw e h
        | inr (store, made, e) ↦ rw e (put_volume-IsConsistent h name _ store)
      ]
  step-IsConsistent (Call.update_volume name v) a orphan strand =
      elim (update_volume_state s w name v) [
        | inl e ↦ rw e h
        | inr (store, entry, made, found, e) ↦ rw e (put_volume-IsConsistent h name _ store)
      ]
  step-IsConsistent (Call.delete_volume name cascade) a orphan strand =
      elim (delete_volume_state s name cascade) [
        | inl e ↦ rw e h
        | inr (inl (c, e)) ↦ rw e (delete_cascade-IsConsistent h name)
        | inr (inr (c, none_left, e)) ↦ rw e (delete_unused-IsConsistent h name none_left)
      ]
  step-IsConsistent (Call.volume_object_store name) a orphan strand =
      Prepared-IsConsistent h (volume_object_store-Prepared s w false name)
  step-IsConsistent (Call.create_database name db) a orphan strand =
      elim (create_database_state s w name db) [
        | inl e ↦ rw e h
        | inr (volume, fresh, e) ↦
            rw e (put_database-IsConsistent h name _ (or_true (u.volumes db.volume) volume) a)
      ]
  step-IsConsistent (Call.update_database name db) a orphan strand =
      elim (update_database_state s w name db) [
        | inl e ↦ rw e h
        | inr (entry, found, e) ↦ rw e (
            update_database_row-IsConsistent h w name db entry found a (
              known _ _
                (λ e. strand db.volume (ground (arith, e, text_beq_iff db.volume db.volume)))))
      ]
  step-IsConsistent (Call.delete_database name cascade) a orphan strand =
      elim (delete_database_state s name cascade) [
        | inl e ↦ rw e h
        | inr e ↦ rw e (drop_database-IsConsistent h name)
      ]
  step-IsConsistent (Call.create_schema ident schema) a orphan strand =
      elim (create_schema_state s w ident schema) [
        | inl e ↦ rw e h
        | inr (parent, e) ↦ rw e (put_schema-IsConsistent h _ _ _ (rw a parent))
      ]
  step-IsConsistent (Call.update_schema ident schema) a orphan strand =
      elim (update_schema_state s w ident schema) [
        | inl e ↦ rw e h
        | inr (entry, found, e) ↦
            rw e (put_schema-IsConsistent h _ _ _ (h.schema_parent _ _ (ap is_some found)))
      ]
  step-IsConsistent (Call.delete_schema ident cascade) a orphan strand =
      elim (delete_schema_state s ident cascade) [
        | inl e ↦ rw e h
        | inr e ↦ rw e (drop_schema-IsConsistent h ident a)
      ]
  step-IsConsistent (Call.create_table ident request) a orphan strand =
      elim (create_table_cases s w ident request) [
        | inl p ↦ Prepared-IsConsistent h p
        | inr (t, row, p, parent, e) ↦
            rw e (put_table_row-IsConsistent h ident row p (or_true _ parent))
      ]
  step-IsConsistent (Call.register_table ident table) a orphan strand =
      put_table_row-IsConsistent h ident _ start (
        known _ _ (λ e.
          orphan (to_ascii_lowercase ident.database) (to_ascii_lowercase ident.schema) (
            ground (
              arith,
              e,
              text_beq_iff (to_ascii_lowercase ident.database) (to_ascii_lowercase ident.database),
              text_beq_iff (to_ascii_lowercase ident.schema) (to_ascii_lowercase ident.schema),
            ))))
  step-IsConsistent (Call.update_table ident update) a orphan strand =
      elim (update_table_cases s w ident update) [
        | inl p ↦ Prepared-IsConsistent h p
        | inr (t, old, row, p, found, e) ↦
            rw e (put_table_row-IsConsistent h ident row p (table_schema h ident old p found))
      ]
  step-IsConsistent (Call.delete_table ident cascade) a orphan strand = drop_table-IsConsistent h _
  step-IsConsistent (Call.table_object_store ident) a orphan strand =
      Prepared-IsConsistent h (table_object_store-Prepared s w ident)

new-IsConsistent : {x : External} {u : Unchecked} → IsConsistent u (new {x = x})
unfolding new get
new-IsConsistent = record {
  schema_parent = λ d n e. cc;
  table_parent = λ d n t e. cc;
  database_volume = λ d row e. cc;
  database_ident = λ d row e. cc;
}

run_from :
    {x : External} {u : Unchecked} (calls : List (World x × Call x)) (s : Metastore x)
    → IsConsistent u s
    → AllNormal calls
    → ((d n : Text) → orphaned d n calls s ≡ true → u.schemas d n ≡ true)
    → ((v : VolumeIdent) → stranded v calls s ≡ true → u.volumes v ≡ true)
    → IsConsistent u (run calls s)
unfolding run
run_from [] s h normal orphan strand = h
run_from ((w, c) ∷ cs) s h (a, normal) orphan strand =
    run_from cs (step w c s)
      (step-IsConsistent w h c a (λ d n e. orphan d n (rw e refl)) (λ v e. strand v (rw e refl)))
      normal (λ d n e. orphan d n (or_true _ e)) (λ v e. strand v (or_true _ e))

-- After any history of calls with normalised identifiers from an empty metastore each schema's database is
-- there and a database's row bears the identifier that it stands under. Each table's schema is there, unless
-- some call registered a table in that schema when it was missing, and each database's volume, unless some
-- call updated a database to that volume when it was missing.
pub run-IsConsistent :
    {x : External} (calls : List (World x × Call x))
    → AllNormal calls
    → IsConsistent (unchecked calls) (run calls new)
run-IsConsistent calls normal = run_from calls new new-IsConsistent normal (λ d n e. e) (λ v e. e)
