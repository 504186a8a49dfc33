-- ===== src/Metastore/Refinement.antt =====
-- The methods of the metastore (crates/catalog-metastore/src/metastore.rs) against what
-- `Metastore.Catalog` promises.
use mathlib.Core.Path.{fun_ext}
use rustice.Prelude.{
  true, false, some, List, [], ◌∷◌, ◌≡◌, refl, Option-cases, inl, inr, text_eq, pair_eq, triple_eq,
  ◌==◌, ◌&&◌, arith, Text,
}
use rustice.Prelude.HashMap.{get, get-insert, get-remove, get-remove_all-filter}
use rustice.Metastore.Error.{Result, ok, err, blocked}
use rustice.Metastore.External.{External, World}
use rustice.Metastore.Models.{new_row, update_row, database_eq, schema_eq}
use rustice.Metastore.Volume.{volume_eq}
use rustice.Metastore.State.{
  Metastore, new, schema_key, table_key, put_volume, put_database, put_schema, put_table,
  drop_table, ensure_volume,
}
use rustice.Metastore.Volumes
use rustice.Metastore.Databases
use rustice.Metastore.Tables
use rustice.Metastore.Catalog.{
  Catalog, Command, Answer, volume, database, schema, table, done, promise, promises, empty_catalog,
}

-- A method's result, as an answer.
abbrev answer {ℓ} :
    {x : External} {A : Type ℓ}
    → (A → Answer x)
    → Result A × Metastore x
    → Result (Answer x) × Metastore x
answer f (ok a, s) = (ok (f a), s)
answer f (err e, s) = (err e, s)
answer f (blocked, s) = (blocked, s)

module _ {x : External} where
  -- What the commands' methods do.
  unfoldable pub execute : World x → Command x → Metastore x → Result (Answer x) × Metastore x
  execute w (Command.create_volume name v) s =
      answer (λ row. volume (some row)) (Volumes.create_volume w name v s)
  execute w (Command.update_volume name v) s =
      answer (λ row. volume (some row)) (Volumes.update_volume w name v s)
  execute w (Command.get_volume name) s = answer volume (Volumes.get_volume name s)
  execute w (Command.create_database name db) s =
      answer (λ row. database (some row)) (Databases.create_database w name db s)
  execute w (Command.update_database name db) s =
      answer (λ row. database (some row)) (Databases.update_database w name db s)
  execute w (Command.drop_database name) s =
      answer (λ u. done) (Databases.delete_database name true s)
  execute w (Command.get_database name) s = answer database (Databases.get_database name s)
  execute w (Command.create_schema ident sc) s =
      answer (λ row. schema (some row)) (Databases.create_schema w ident sc s)
  execute w (Command.update_schema ident sc) s =
      answer (λ row. schema (some row)) (Databases.update_schema w ident sc s)
  execute w (Command.drop_schema ident) s =
      answer (λ u. done) (Databases.delete_schema ident true s)
  execute w (Command.get_schema ident) s = answer schema (Databases.get_schema ident s)
  execute w (Command.register_table ident t) s =
      answer (λ row. table (some row)) (Tables.register_table w ident t s)
  execute w (Command.delete_table ident) s = answer (λ u. done) (Tables.delete_table ident false s)
  execute w (Command.get_table ident) s = answer table (Tables.get_table ident s)

  unfoldable pub executes : List (World x × Command x) → Metastore x → List (Result (Answer x))
  executes [] s = []
  executes ((w, q) ∷ qs) s = (execute w q s).0 ∷ executes qs (execute w q s).1

  -- The catalog of a state: its lookups.
  abbrev pub view : Metastore x → Catalog x
  view s = record {
    volumes = λ k. get k s.volumes;
    databases = λ k. get k s.databases;
    schemas = λ k. get k s.schemas;
    tables = λ k. get k s.tables;
  }

  catalog_path :
      (c d : Catalog x)
      → ((k : Text) → c.volumes k ≡ d.volumes k)
      → ((k : Text) → c.databases k ≡ d.databases k)
      → ((k : Text × Text) → c.schemas k ≡ d.schemas k)
      → ((k : Text × Text × Text) → c.tables k ≡ d.tables k)
      → c ≡ d
  catalog_path c d hv hd hs ht = λ i. record {
    volumes = fun_ext hv i;
    databases = fun_ext hd i;
    schemas = fun_ext hs i;
    tables = fun_ext ht i;
  }

  -- A command's method answers as promised.
  execute_answer :
      (w : World x) (q : Command x) (s : Metastore x) → (execute w q s).0 ≡ (promise w q (view s)).0
  unfolding execute promise Volumes.create_volume Volumes.update_volume Volumes.get_volume
      Databases.create_database Databases.update_database Databases.delete_database
      Databases.get_database Databases.create_schema Databases.update_schema Databases.delete_schema
      Databases.get_schema Tables.register_table Tables.delete_table Tables.get_table ensure_volume
  execute_answer w (Command.create_volume name v) s = ground arith
  execute_answer w (Command.update_volume name v) s = ground arith
  execute_answer w (Command.get_volume name) s = refl
  execute_answer w (Command.create_database name db) s = ground arith
  execute_answer w (Command.update_database name db) s = ground arith
  execute_answer w (Command.drop_database name) s = ground arith
  execute_answer w (Command.get_database name) s = refl
  execute_answer w (Command.create_schema ident sc) s = ground arith
  execute_answer w (Command.update_schema ident sc) s = ground arith
  execute_answer w (Command.drop_schema ident) s = ground arith
  execute_answer w (Command.get_schema ident) s = refl
  execute_answer w (Command.register_table ident t) s = refl
  execute_answer w (Command.delete_table ident) s = refl
  execute_answer w (Command.get_table ident) s = refl

  -- A command's method leaves the promised catalog.
  view-execute :
      (w : World x) (q : Command x) (s : Metastore x)
      → view (execute w q s).1 ≡ (promise w q (view s)).1
  unfolding execute promise Volumes.create_volume Volumes.update_volume Volumes.get_volume
      Databases.create_database Databases.update_database Databases.delete_database
      Databases.get_database Databases.create_schema Databases.update_schema Databases.delete_schema
      Databases.get_schema Tables.register_table Tables.delete_table Tables.get_table ensure_volume
      put_volume put_database put_schema put_table drop_table Databases.drop_database
      Databases.drop_schema
  view-execute w (Command.create_volume name v) s =
      catalog_path _ _ (λ k. ground (arith, get-insert name k (new_row w.now v) s.volumes))
        (λ k. ground arith) (λ k. ground arith) (λ k. ground arith)
  view-execute w (Command.update_volume name v) s = elim (Option-cases (get name s.volumes)) [
    | inl gone ↦
        catalog_path _ _ (λ k. ground (arith, gone)) (λ k. ground (arith, gone))
          (λ k. ground (arith, gone)) (λ k. ground (arith, gone))
    | inr (old, found) ↦
        catalog_path _ _
          (λ k.
            ground
              (arith, found, get-insert name k (update_row ⦃p = volume_eq⦄ w.now v old) s.volumes))
          (λ k. ground (arith, found)) (λ k. ground (arith, found)) (λ k. ground (arith, found))
  ]
  view-execute w (Command.get_volume name) s = refl
  view-execute w (Command.create_database name db) s =
      catalog_path _ _ (λ k. ground arith)
        (λ k. ground (arith, get-insert name k (new_row w.now db) s.databases)) (λ k. ground arith)
        (λ k. ground arith)
  view-execute w (Command.update_database name db) s = elim (Option-cases (get name s.databases)) [
    | inl gone ↦
        catalog_path _ _ (λ k. ground (arith, gone)) (λ k. ground (arith, gone))
          (λ k. ground (arith, gone)) (λ k. ground (arith, gone))
    | inr (old, found) ↦
        catalog_path _ _ (λ k. ground (arith, found))
          (λ k. ground (arith, found, get-insert name k (update_row w.now db old) s.databases))
          (λ k. ground (arith, found)) (λ k. ground (arith, found))
  ]
  view-execute w (Command.drop_database name) s =
      catalog_path _ _ (λ k. ground arith) (λ k. ground (arith, get-remove name k s.databases))
        (λ k. ground (arith, get-remove_all-filter (λ j. j.0 == name) k s.schemas))
        (λ k. ground (arith, get-remove_all-filter (λ j. j.0 == name) k s.tables))
  view-execute w (Command.get_database name) s = refl
  view-execute w (Command.create_schema ident sc) s =
      catalog_path _ _ (λ k. ground arith) (λ k. ground arith)
        (λ k. ground (arith, get-insert (schema_key ident) k (new_row w.now sc) s.schemas))
        (λ k. ground arith)
  view-execute w (Command.update_schema ident sc) s =
      elim (Option-cases (get (schema_key ident) s.schemas)) [
        | inl gone ↦
            catalog_path _ _ (λ k. ground (arith, gone)) (λ k. ground (arith, gone))
              (λ k. ground (arith, gone)) (λ k. ground (arith, gone))
        | inr (old, found) ↦
            catalog_path _ _ (λ k. ground (arith, found)) (λ k. ground (arith, found))
              (λ k.
                ground (
                  arith,
                  found,
                  get-insert (schema_key ident) k (update_row w.now sc old) s.schemas,
                ))
              (λ k. ground (arith, found))
      ]
  view-execute w (Command.drop_schema ident) s =
      catalog_path _ _ (λ k. ground arith) (λ k. ground arith)
        (λ k. ground (arith, get-remove (schema_key ident) k s.schemas))
        (λ k. ground (
          arith,
          get-remove_all-filter (λ j. j.0 == ident.database && j.1 == ident.schema) k s.tables,
        ))
  view-execute w (Command.get_schema ident) s = refl
  view-execute w (Command.register_table ident t) s =
      catalog_path _ _ (λ k. refl) (λ k. refl) (λ k. refl)
        (λ k. get-insert (table_key ident) k (new_row w.now t) s.tables)
  view-execute w (Command.delete_table ident) s =
      catalog_path _ _ (λ k. refl) (λ k. refl) (λ k. refl)
        (λ k. get-remove (table_key ident) k s.tables)
  view-execute w (Command.get_table ident) s = refl

  executes-promises :
      (qs : List (World x × Command x)) (s : Metastore x) → executes qs s ≡ promises qs (view s)
  unfolding executes promises
  executes-promises [] s = refl
  executes-promises ((w, q) ∷ qs) s =
      cc (execute_answer w q s, view-execute w q s, executes-promises qs (execute w q s).1)

  -- From an empty metastore on, the methods answer any commands, one after another, as the catalog
  -- promises that starts empty: rows, errors and missing rows alike.
  pub executes-new : (qs : List (World x × Command x)) → executes qs new ≡ promises qs empty_catalog
  unfolding new get empty_catalog
  executes-new qs = executes-promises qs new
