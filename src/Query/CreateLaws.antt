-- ===== src/Query/CreateLaws.antt =====
-- CREATE SCHEMA of a schema that has been created (crates/executor/src/query.rs).
use rustice.Prelude.{
  Bool, Option, none, some, Text, text_eq, codes, subst, text_beq_iff, ◌≡◌, refl, arith, ap, ◌∙◌,
  sym,
}
use rustice.Prelude.HashMap.{get, insert, get-insert, insert-get}
use rustice.Catalog.Method
use rustice.Catalog.Source.{Source}
use rustice.Catalog.CachingSchema
use rustice.Catalog.CachingSchema.{CachingSchema}
use rustice.Catalog.CachingCatalog
use rustice.Catalog.CachingCatalog.{
  CachingCatalog, cache_schema, set_schemas, cache_found, cache_registered, schema_or,
  create_namespace_async,
}
use rustice.Catalog.CatalogList.{CatalogList, catalog, put_catalog}
use rustice.Query.Error.{Error, Result, ok, database_not_found}
use rustice.Query.Names.{SchemaReference, Sql, Scope, resolve_schema_name, schema_ref_to_resolved}
use rustice.Query.Ddl.{
  Response, created_entity, InCatalog, State, answered, existing, create_schema_found,
  create_schema_in, with_found, with_catalog, create_resolved, create_catalog_schema, create_schema,
}

module _ (x : Source) where
  abbrev pub HasCached : Text → State x → Type 0
  HasCached name s = (c : CachingSchema x) × (get name s.0.schemas_cache ≡ some c)

  pub cache_schema-HasCached :
      (name : Text) (c : CachingSchema x) (s : State x)
      → HasCached name (cache_schema {x = x} name c s)
  unfolding cache_schema set_schemas
  cache_schema-HasCached name c (cc, w) =
      (c, ground (arith, get-insert name name c cc.schemas_cache, text_beq_iff name name))

  continue_ok :
      {S A B : Type 0} (m : Method.Result A × S) (f : A → Method.Method S B) (b : B) (s' : S)
      → Method.continue m f ≡ (Method.ok b, s')
      → (a : A) × (s : S) × (f a s ≡ (Method.ok b, s'))
  continue_ok (Method.ok a, s) f b s' h = (a, s, h)
  continue_ok (Method.err e, s) f b s' h = cc

  pub schema_or-HasCached :
      (name : Text) (o : Option (CachingSchema x)) (s s' : State x) (c : CachingSchema x)
      → get name s.0.schemas_cache ≡ o
      → schema_or {x = x} name o s ≡ (Method.ok (some c), s')
      → HasCached name s'
  unfolding schema_or cache_found
  schema_or-HasCached name (some c0) s s' c e h = subst (HasCached name) (ap (λ p. p.1) h) (c0, e)
  schema_or-HasCached name none s s' c e h = found (x.schema name s.1) h
    where
      found :
          (p : Option x.SchemaProvider)
          → cache_found {x = x} name s.0.has_iceberg p s ≡ (Method.ok (some c), s')
          → HasCached name s'
      found none h = cc
      found (some p) h = subst (HasCached name) (ap (λ p. p.1) h) (cache_schema-HasCached name _ s)

  cache_registered-HasCached :
      (name : Text) (s s' : State x) (c : CachingSchema x)
      → cache_registered {x = x} name s ≡ (Method.ok c, s')
      → HasCached name s'
  unfolding cache_registered
  cache_registered-HasCached name s s' c h =
      let (p, s1, h1) =
        continue_ok
          (
            Method.ok_or (Method.data_fusion (codes "Failed to look up newly registered schema"))
                (x.schema name s.1),
            s,
          )
          _ _ _ h in
      subst (HasCached name) (ap (λ p. p.1) h1) (cache_schema-HasCached name _ s1)

  create_namespace_async-HasCached :
      (name : Text) (s s' : State x) (c : CachingSchema x)
      → create_namespace_async {x = x} name s ≡ (Method.ok c, s')
      → HasCached name s'
  unfolding create_namespace_async
  create_namespace_async-HasCached name s s' c h =
      let (_, s1, h1) =
        continue_ok (Method.when s.0.has_iceberg (CachingSchema.call (x.create_namespace name)) s)
          (λ _ s1. Method.continue (register s1) (λ _. cache_registered {x = x} name)) c s' h in
      let (_, s2, h2) = continue_ok (register s1) (λ _. cache_registered {x = x} name) c s' h1 in
      cache_registered-HasCached name s2 s' c h2
    where
      register : Method.Method (State x) (Option x.SchemaProvider)
      register = CachingSchema.call (x.register_schema name x.memory_schema)

  create_schema_in-HasCached :
      (name : Text) (if_not_exists : Bool) (s s' : State x)
      → create_schema_in x name if_not_exists s ≡ (ok created_entity, s')
      → HasCached name s'
  unfolding create_schema_in CachingCatalog.schema answered create_schema_found existing
  create_schema_in-HasCached name if_not_exists s s' h =
      found (schema_or {x = x} name (get name s.0.schemas_cache) s) refl h
    where
      created :
          (m : Method.Result (CachingSchema x) × State x) (s1 : State x)
          → m ≡ create_namespace_async {x = x} name s1
          → answered x created_entity m ≡ (ok created_entity, s')
          → HasCached name s'
      created (Method.ok c, s2) s1 e h =
          create_namespace_async-HasCached name s1 s' c
            (sym e ∙ ap (λ s0. (Method.ok c, s0)) (ap (λ p. p.1) h))
      created (Method.err e', s2) s1 e h = cc

      found :
          (m : Method.Result (Option (CachingSchema x)) × State x)
          → m ≡ schema_or {x = x} name (get name s.0.schemas_cache) s
          → create_schema_found x name if_not_exists m ≡ (ok created_entity, s')
          → HasCached name s'
      found (Method.ok (some c), s1) e h =
          schema_or-HasCached name (get name s.0.schemas_cache) s s' c refl
            (sym e ∙ ap (λ s0. (Method.ok (some c), s0)) (ap (λ p. p.1) h))
      found (Method.ok none, s1) e h = created (create_namespace_async {x = x} name s1) s1 refl h
      found (Method.err e', s1) e h = cc

  -- A cached schema is found, and nothing changes.
  create_schema_in_cached :
      (name : Text) (if_not_exists : Bool) (s : State x)
      → HasCached name s
      → create_schema_in x name if_not_exists s ≡ (existing name if_not_exists, s)
  unfolding create_schema_in CachingCatalog.schema create_schema_found schema_or
  create_schema_in_cached name if_not_exists s (c, h) = rw h refl

module _ {Options : Type 0} (x : Source) (S : Type 0) (sql : Sql) (scope : Scope Options) where
  pub catalog-put_catalog :
      (name : Text) (s : State x) (l : CatalogList x S)
      → catalog x S name (put_catalog x S name s l) ≡ some s
  unfolding catalog put_catalog
  catalog-put_catalog name s l =
      ground (arith, get-insert name name s l.catalogs, text_beq_iff name name)

  put_catalog_again :
      (name : Text) (s : State x) (l : CatalogList x S)
      → put_catalog x S name s (put_catalog x S name s l) ≡ put_catalog x S name s l
  unfolding catalog put_catalog
  put_catalog_again name s l =
      ap (λ m. record l { catalogs = m })
        (insert-get name s (insert name s l.catalogs) (catalog-put_catalog name s l))

  put_again :
      (e : Error) (name : Text) (m : InCatalog x Response) (r : Result Response) (s : State x)
      (l : CatalogList x S)
      → m s ≡ (r, s)
      → (let l' = put_catalog x S name s l in
          with_found x S e name (catalog x S name l') m l' ≡ (r, l'))
  unfolding with_found
  put_again e name m r s l h =
      rw (catalog-put_catalog name s l) (rw (h, put_catalog_again name s l) refl)

  with_catalog_again :
      (e : Error) (name : Text) (m m' : InCatalog x Response) (r' : Result Response) (r : Response)
      (l l' : CatalogList x S)
      → with_catalog x S e name m l ≡ (ok r, l')
      → ((s s' : State x) → m s ≡ (ok r, s') → m' s' ≡ (r', s'))
      → with_catalog x S e name m' l' ≡ (r', l')
  unfolding with_catalog with_found
  with_catalog_again e name m m' r' r l l' h next = found (catalog x S name l) h
    where
      found :
          (o : Option (State x))
          → with_found x S e name o m l ≡ (ok r, l')
          → with_found x S e name (catalog x S name l') m' l' ≡ (r', l')
      found none h = cc
      found (some s) h =
          subst (λ l0. with_found x S e name (catalog x S name l0) m' l0 ≡ (r', l0))
            (ap (λ p. p.1) h)
            (put_again e name m' r' (m s).1 l
              (next s (m s).1 (ap (λ o. (o, (m s).1)) (ap (λ p. p.0) h))))

  -- The schema that a statement CREATE SCHEMA names
  abbrev pub schema_of : SchemaReference → Text
  schema_of resolved = (schema_ref_to_resolved sql scope resolved).schema

  -- After CREATE SCHEMA has answered that the schema is there, the statement is refused when it comes again
  -- without IF NOT EXISTS, and answers the same with it; the catalogs stay as they are either way.
  pub create_schema_again :
      (ident : Text) (resolved : SchemaReference) (if_not_exists again : Bool)
      (l l' : CatalogList x S)
      → resolve_schema_name sql scope ident ≡ ok resolved
      → create_schema x S sql scope (ok (create_catalog_schema ident if_not_exists)) l
        ≡ (ok created_entity, l')
      → create_schema x S sql scope (ok (create_catalog_schema ident again)) l'
        ≡ (existing (schema_of resolved) again, l')
  unfolding create_schema create_resolved
  create_schema_again ident resolved if_not_exists again l l' h created =
      let r = schema_ref_to_resolved sql scope resolved in
      let created' : create_resolved x S sql scope if_not_exists (ok resolved) l
          ≡ (ok created_entity, l') =
        subst (λ o. create_resolved x S sql scope if_not_exists o l ≡ (ok created_entity, l')) h
          created in
      rw h (
        with_catalog_again (database_not_found r.catalog) r.catalog
          (create_schema_in x r.schema if_not_exists) (create_schema_in x r.schema again)
          (existing r.schema again) created_entity l l' created'
          (λ s s' e.
            create_schema_in_cached x r.schema again s'
              (create_schema_in-HasCached x r.schema if_not_exists s s' e)))
