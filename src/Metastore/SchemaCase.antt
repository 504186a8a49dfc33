-- ===== src/Metastore/SchemaCase.antt =====
-- `delete_schema` (crates/catalog-metastore/src/metastore.rs) looks for the tables under the
-- identifier as it is written, and removes the schema under its lower-case key.
use rustice.Prelude.{
  Bool, true, false, ◌≡◌, ◌≢◌, refl, [], ◌∷◌, text_eq, pair_eq, triple_eq, Text, HashKey,
  text_beq_iff, ◌==◌, none, if◌then◌else◌, ◌&&◌, arith, filter, to_ascii_lowercase, beq_refl,
}
use rustice.Prelude.HashMap.{
  HashMap, get, contains_key, keys, remove_all, get-remove, get-remove_all-filter,
}
use rustice.Metastore.Error.{ok, err, schema_not_found}
use rustice.Metastore.External.{External}
use rustice.Metastore.Models.{SchemaIdent}
use rustice.Metastore.State.{Metastore, schema_key}
use rustice.Metastore.Databases.{delete_schema, tables_of, drop_schema}

module _ {ℓ κ} {K : Type ℓ} {V : Type κ} ⦃e : HashKey K⦄ where
  -- No key of the map passes the test.
  filter-keys_none :
      (p : K → Bool) (m : HashMap K V)
      → ((k : K) → contains_key k m ≡ true → p k ≡ false)
      → filter p (keys m) ≡ []
  unfolding get
  filter-keys_none p [] none_passes = refl
  filter-keys_none p ((k, v) ∷ m) none_passes =
      let rest =
        filter-keys_none p m (λ j there. none_passes j (ground (arith, there, e.same_iff k j))) in
      ground (arith, rest, none_passes k, e.same_iff k k)

  -- A key of the map passes the test.
  filter-keys_some :
      (p : K → Bool) (k : K) (m : HashMap K V)
      → contains_key k m ≡ true
      → p k ≡ true
      → filter p (keys m) ≢ []
  unfolding get
  filter-keys_some p k [] there passes = cc
  filter-keys_some p k ((j, v) ∷ m) there passes =
      ground (arith, filter-keys_some p k m, e.same_iff j k)

-- The tables stand under keys in lower case, as `table_key` makes them.
pub record HasLowerKeys {x : External} (s : Metastore x) : Type 0 where
  pub lower :
      (d n t : Text)
      → contains_key (d, n, t) s.tables ≡ true
      → (to_ascii_lowercase d ≡ d) × (to_ascii_lowercase n ≡ n)

module _ {x : External} (s : Metastore x) (ident : SchemaIdent) where
  no_tables_of :
      HasLowerKeys s → schema_key ident ≢ (ident.database, ident.schema) → tables_of ident s ≡ []
  unfolding tables_of schema_key
  no_tables_of h mixed = filter-keys_none _ s.tables λ (d, n, t) there.
      let low = h.lower d n t there in
      ground (arith, low, text_beq_iff d ident.database, text_beq_iff n ident.schema)

  -- With an identifier that has a capital letter, over tables under lower-case keys, `delete_schema`
  -- answers ok, cascading or not: the schema is gone and every table is still there.
  pub delete_schema-mixed_case :
      (cascade : Bool)
      → HasLowerKeys s
      → schema_key ident ≢ (ident.database, ident.schema)
      → ((delete_schema ident cascade s).0 ≡ ok tt)
        × ((delete_schema ident cascade s).1.tables ≡ s.tables)
        × (contains_key (schema_key ident) (delete_schema ident cascade s).1.schemas ≡ false)
  unfolding delete_schema drop_schema tables_of remove_all
  delete_schema-mixed_case cascade h mixed =
      let none_found = no_tables_of h mixed in
      (
        ground (arith, none_found),
        ground (arith, none_found),
        ground (
          arith,
          none_found,
          get-remove (schema_key ident) (schema_key ident) s.schemas,
          beq_refl (schema_key ident),
        ),
      )

  -- With an identifier in lower case and a table in the schema, `delete_schema` without the cascade
  -- is refused, the error is the one for a missing schema, and nothing changes.
  delete_schema-refused :
      (t : Text)
      → contains_key (ident.database, ident.schema, t) s.tables ≡ true
      → delete_schema ident false s ≡ (err (schema_not_found ident.schema ident.database), s)
  unfolding delete_schema tables_of
  delete_schema-refused t there =
      let found =
        filter-keys_some (λ k. k.0 == ident.database && k.1 == ident.schema)
          (ident.database, ident.schema, t) s.tables there
          (ground (
            arith,
            text_beq_iff ident.database ident.database,
            text_beq_iff ident.schema ident.schema,
          )) in
      ground (arith, found)

  -- With an identifier in lower case, the cascade removes the schema and exactly its tables.
  pub delete_schema-cascade :
      (d n t : Text)
      → (delete_schema ident true s).0 ≡ ok tt
        × (get (d, n, t) (delete_schema ident true s).1.tables
            ≡ (if d == ident.database && n == ident.schema then none else get (d, n, t) s.tables))
        × (get (d, n) (delete_schema ident true s).1.schemas
            ≡ (if schema_key ident == (d, n) then none else get (d, n) s.schemas))
  unfolding delete_schema drop_schema
  delete_schema-cascade d n t = (
    ground arith,
    ground (
      arith,
      get-remove_all-filter (λ k. k.0 == ident.database && k.1 == ident.schema) (d, n, t) s.tables,
    ),
    ground (arith, get-remove (schema_key ident) (d, n) s.schemas),
  )
