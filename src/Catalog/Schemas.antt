-- ===== src/Catalog/Schemas.antt =====
-- What `schema` answers after schemas have been created and removed (crates/catalog/src/catalog.rs).
use rustice.Prelude.{
  Bool, true, false, Option, none, some, Text, text_eq, text_beq_iff, if◌then◌else◌, ◌≡◌, refl,
  arith, ap, ◌∙◌,
}
use rustice.Prelude.HashMap.{get, remove, get-remove}
use rustice.Catalog.Method.{ok}
use rustice.Catalog.Source.{Source}
use rustice.Catalog.CachingSchema.{CachingSchema}
use rustice.Catalog.CachingCatalog.{
  CachingCatalog, set_schemas, empty_schema, cache_found, schema_or, schema, after_deregister,
  uncache_schema, deregister_schema,
}

module _ (x : Source) where
  abbrev State : Type 0
  State = CachingCatalog x × x.World

  -- The schema that the provider has, as it enters the cache
  abbrev pub from_provider : Bool → Text → x.World → Option (CachingSchema x)
  from_provider has_iceberg name w = elim (x.schema name w) [
    | none ↦ none
    | some p ↦ some (empty_schema {x = x} has_iceberg name p)
  ]

  abbrev pub cached_or :
      Option (CachingSchema x) → Option (CachingSchema x) → Option (CachingSchema x)
  cached_or (some c) other = some c
  cached_or none other = other

  schema_or_lem :
      (name : Text) (o : Option (CachingSchema x)) (s : State)
      → (schema_or name o s).0 ≡ ok (cached_or o (from_provider s.0.has_iceberg name s.1))
  unfolding schema_or cache_found
  schema_or_lem name (some c) s = refl
  schema_or_lem name none s = go (x.schema name s.1)
    where
      go :
          (p : Option x.SchemaProvider)
          → (cache_found name s.0.has_iceberg p s).0
            ≡ ok (elim p as (λ _. Option (CachingSchema x)) [
              | none ↦ none
              | some p' ↦ some (empty_schema {x = x} s.0.has_iceberg name p')
            ])
      go none = refl
      go (some p) = refl

  schema_lem :
      (name : Text) (s : State)
      → (schema name s).0
        ≡ ok (cached_or (get name s.0.schemas_cache) (from_provider s.0.has_iceberg name s.1))
  unfolding schema
  schema_lem name s = schema_or_lem name (get name s.0.schemas_cache) s

  after_deregister_lem :
      (name : Text) (answer : Option x.SchemaProvider) (b : Bool) (c : CachingCatalog x)
      (w : x.World)
      → (after_deregister name answer b (c, w)).1
        ≡ (if b then set_schemas (remove name c.schemas_cache) (c, w) else (c, w))
  unfolding after_deregister uncache_schema
  after_deregister_lem name answer true c w = refl
  after_deregister_lem name answer false c w = refl

  -- When the provider has let a schema go, `schema` answers in a catalog of iceberg what the provider
  -- has then. In a local catalog it goes on answering with the cached schema, where there is one.
  pub schema-deregister_schema :
      (name : Text) (cascade : Bool) (s : State) (answer : Option x.SchemaProvider) (w : x.World)
      → x.deregister_schema name cascade s.1 ≡ (ok answer, w)
      → (schema name (deregister_schema name cascade s).1).0
        ≡ ok (
            if s.0.has_iceberg
            then from_provider s.0.has_iceberg name w
            else cached_or (get name s.0.schemas_cache) (from_provider s.0.has_iceberg name w))
  unfolding deregister_schema set_schemas
  schema-deregister_schema name cascade (c, w0) answer w h =
      rw (h, after_deregister_lem name answer c.has_iceberg c w) (go c.has_iceberg refl)
    where
      gone : get name (remove name c.schemas_cache) ≡ none
      gone = ground (arith, get-remove name name c.schemas_cache, text_beq_iff name name)

      go :
          (b : Bool)
          → b ≡ c.has_iceberg
          → (schema name (if b then set_schemas (remove name c.schemas_cache) (c, w) else (c, w))).0
            ≡ ok (
                if b
                then from_provider c.has_iceberg name w
                else cached_or (get name c.schemas_cache) (from_provider c.has_iceberg name w))
      go true e =
          schema_lem name (set_schemas (remove name c.schemas_cache) (c, w))
          ∙ ap (λ o. ok (cached_or o (from_provider c.has_iceberg name w))) gone
      go false e = schema_lem name (c, w)
