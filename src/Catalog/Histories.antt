-- ===== src/Catalog/Histories.antt =====
-- What the cache of a catalog is in every state that calls reach (crates/catalog/src/catalog.rs).
use rustice.Prelude.{
  Bool, true, false, Option, none, some, List, [], ◌∷◌, Text, text_eq, text_beq_iff, ◌≡◌, refl,
  arith, sort_texts, Option-cases, inl, inr,
}
use rustice.Prelude.HashMap.{
  HashMap, get, insert, remove, retain, get-remove, contains_key, contains-insert, contains-retain,
}
use rustice.Catalog.Method.{Result, ok, err, Method, continue, when, ◌>>=◌}
use rustice.Catalog.Source.{Source}
use rustice.Catalog.CachingSchema.{CachingSchema, call, contains}
use rustice.Catalog.CachingCatalog.{
  CachingCatalog, CatalogMethod, new, set_schemas, cache_schema, empty_schema, cache_found,
  schema_or, schema, after_deregister, after_register, uncache_schema, deregister_schema,
  register_schema, cache_registered, create_namespace_async, drop_namespace_async, schema_names,
}

-- A call of a catalog
pub data CatalogCall (x : Source) : Type 0 where
  names : CatalogCall x
  look_up create : Text → CatalogCall x
  drop deregister : Text → Bool → CatalogCall x
  register : Text → x.SchemaProvider → CatalogCall x

module _ (x : Source) where
  abbrev State : Type 0
  State = CachingCatalog x × x.World

  unfoldable pub run_call : CatalogCall x → State → State
  run_call names s = (schema_names {x = x} s).1
  run_call (look_up name) s = (schema {x = x} name s).1
  run_call (create name) s = (create_namespace_async {x = x} name s).1
  run_call (drop name cascade) s = (drop_namespace_async {x = x} name cascade s).1
  run_call (deregister name cascade) s = (deregister_schema {x = x} name cascade s).1
  run_call (register name provider) s = (register_schema {x = x} name provider s).1

  unfoldable pub run : List (CatalogCall x) → State → State
  run [] s = s
  run (c ∷ cs) s = run cs (run_call c s)

  -- Each schema of a cache has the name, the namespace and the kind of its catalog that it stands under,
  -- and no name stands twice.
  abbrev pub IsCoherent : Bool → HashMap Text (CachingSchema x) → Type 0
  IsCoherent b [] = Unit {0}
  IsCoherent b ((name, c) ∷ m) =
      (c.name ≡ name)
      × (c.iceberg_namespace ≡ name)
      × (c.has_iceberg ≡ b)
      × (contains_key name m ≡ false)
      × IsCoherent b m

  insert-IsCoherent :
      (b : Bool) (name : Text) (p : x.SchemaProvider) (m : HashMap Text (CachingSchema x))
      → IsCoherent b m
      → IsCoherent b (insert name (empty_schema {x = x} b name p) m)
  unfolding insert empty_schema get
  insert-IsCoherent b name p [] h = (refl, refl, refl, refl, tt)
  insert-IsCoherent b name p ((k, c) ∷ m) h = ground (
    arith,
    insert-IsCoherent b name p m h.4,
    text_beq_iff k name,
    text_beq_iff name k,
    contains-insert name k (empty_schema {x = x} b name p) m,
  )

  remove-IsCoherent :
      (b : Bool) (name : Text) (m : HashMap Text (CachingSchema x))
      → IsCoherent b m
      → IsCoherent b (remove name m)
  unfolding remove
  remove-IsCoherent b name [] h = tt
  remove-IsCoherent b name ((k, c) ∷ m) h =
      ground (arith, remove-IsCoherent b name m h.4, get-remove name k m)

  retain-IsCoherent :
      (b : Bool) (keep : Text → CachingSchema x → Bool) (m : HashMap Text (CachingSchema x))
      → IsCoherent b m
      → IsCoherent b (retain keep m)
  unfolding retain
  retain-IsCoherent b keep [] h = tt
  retain-IsCoherent b keep ((k, c) ∷ m) h =
      ground (arith, retain-IsCoherent b keep m h.4, contains-retain keep k m)

  abbrev Good : State → Type 0
  Good s = IsCoherent s.0.has_iceberg s.0.schemas_cache

  abbrev Keeps : {A : Type 0} → CatalogMethod x A → Type 0
  Keeps m = (s : State) → Good s → Good (m s).1

  bind-Keeps :
      {A B : Type 0} (m : CatalogMethod x A) (f : A → CatalogMethod x B)
      → Keeps m
      → ((a : A) → Keeps (f a))
      → Keeps (m >>= f)
  bind-Keeps {A} m f km kf s h = go (m s) (km s h)
    where
      go : (p : Result A × State) → Good p.1 → Good (continue p f).1
      go (ok a, s') g = kf a s' g
      go (err e, s') g = g

  call-Keeps : {A : Type 0} (m : Method x.World A) → Keeps (call m)
  call-Keeps m s h = h

  when-call-Keeps : (b : Bool) (m : Method x.World (Unit {0})) → Keeps (when b (call m))
  when-call-Keeps true m s h = h
  when-call-Keeps false m s h = h

  cache_registered-Keeps : (name : Text) → Keeps (cache_registered name)
  unfolding cache_registered cache_schema set_schemas
  cache_registered-Keeps name (c, w) h = elim (Option-cases (x.schema name w)) [
    | inl e ↦ rw e h
    | inr (p, e) ↦ rw e (insert-IsCoherent c.has_iceberg name p c.schemas_cache h)
  ]

  uncache_schema-Keeps : (name : Text) → Keeps (uncache_schema name)
  unfolding uncache_schema set_schemas
  uncache_schema-Keeps name (c, w) h = remove-IsCoherent c.has_iceberg name c.schemas_cache h

  schema_names-Keeps : Keeps schema_names
  unfolding schema_names set_schemas
  schema_names-Keeps (c, w) h =
      retain-IsCoherent c.has_iceberg (λ name _. contains (sort_texts (x.schema_names w)) name)
        c.schemas_cache h

  schema_or-Keeps : (name : Text) (o : Option (CachingSchema x)) → Keeps (schema_or name o)
  unfolding schema_or cache_found cache_schema set_schemas
  schema_or-Keeps name (some schema) s h = h
  schema_or-Keeps name none (c, w) h = elim (Option-cases (x.schema name w)) [
    | inl e ↦ rw e h
    | inr (p, e) ↦ rw e (insert-IsCoherent c.has_iceberg name p c.schemas_cache h)
  ]

  after_register-Keeps :
      (name : Text) (answer : Option x.SchemaProvider) (b : Bool)
      → Keeps (after_register name answer b)
  unfolding after_register
  after_register-Keeps name answer true s h =
      bind-Keeps (cache_registered name) _ (cache_registered-Keeps name) (λ a s' g. g) s h
  after_register-Keeps name answer false s h = h

  after_deregister-Keeps :
      (name : Text) (answer : Option x.SchemaProvider) (b : Bool)
      → Keeps (after_deregister name answer b)
  unfolding after_deregister
  after_deregister-Keeps name answer true s h =
      bind-Keeps (uncache_schema name) _ (uncache_schema-Keeps name) (λ a s' g. g) s h
  after_deregister-Keeps name answer false s h = h

  run_call-Good : (c : CatalogCall x) (s : State) → Good s → Good (run_call c s)
  unfolding run_call schema create_namespace_async drop_namespace_async deregister_schema
      register_schema
  run_call-Good names s h = schema_names-Keeps s h
  run_call-Good (look_up name) s h = schema_or-Keeps name (get name s.0.schemas_cache) s h
  run_call-Good (create name) s h =
      bind-Keeps (when s.0.has_iceberg (call (x.create_namespace name))) _
        (when-call-Keeps s.0.has_iceberg (x.create_namespace name))
        (λ _.
          bind-Keeps (call (x.register_schema name x.memory_schema)) _
            (call-Keeps (x.register_schema name x.memory_schema))
            (λ _. cache_registered-Keeps name))
        s h
  run_call-Good (drop name cascade) s h =
      bind-Keeps (when s.0.has_iceberg (call (x.drop_namespace name))) _
        (when-call-Keeps s.0.has_iceberg (x.drop_namespace name))
        (λ _.
          bind-Keeps (call (x.deregister_schema name cascade)) _
            (call-Keeps (x.deregister_schema name cascade)) (λ _. uncache_schema-Keeps name))
        s h
  run_call-Good (deregister name cascade) s h =
      bind-Keeps (call (x.deregister_schema name cascade)) _
        (call-Keeps (x.deregister_schema name cascade))
        (λ answer. after_deregister-Keeps name answer s.0.has_iceberg) s h
  run_call-Good (register name provider) s h =
      bind-Keeps (call (x.register_schema name provider)) _
        (call-Keeps (x.register_schema name provider))
        (λ answer. after_register-Keeps name answer s.0.has_iceberg) s h

  run-Good : (cs : List (CatalogCall x)) (s : State) → Good s → Good (run cs s)
  unfolding run
  run-Good [] s h = h
  run-Good (c ∷ cs) s h = run-Good cs (run_call c s) (run_call-Good c s h)

  -- After any history of calls of a new catalog each schema of its cache has the name and the namespace
  -- that it stands under and the kind of its catalog, and no name stands twice.
  pub run-IsCoherent :
      (name : Text) (has_iceberg : Bool) (w : x.World) (cs : List (CatalogCall x))
      → let s = run cs (new name has_iceberg, w) in IsCoherent s.0.has_iceberg s.0.schemas_cache
  unfolding new
  run-IsCoherent name has_iceberg w cs = run-Good cs (new name has_iceberg, w) tt
