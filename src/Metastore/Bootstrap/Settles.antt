-- ===== src/Metastore/Bootstrap/Settles.antt =====
-- Steps that bring something about in a metastore, and change nothing where it is so already; they are
-- those of crates/catalog-metastore/src/metastore_bootstrap_config.rs.
use rustice.Prelude.{true, Text, text_eq, pair_eq, triple_eq, ◌≡◌, refl, ap, ◌∙◌}
use rustice.Prelude.HashMap.{contains_key, insert_keeps}
use rustice.Metastore.External.{External}
use rustice.Metastore.Models.{RwObject, Database, Schema}
use rustice.Metastore.Volume.{Volume}
use rustice.Metastore.State.{Metastore, Table, put_volume, put_database, put_schema, put_table}
use rustice.Metastore.Bootstrap.Config.{
  Setup, ConfigResult, ok, err, blocked, lift, pure, ◌>>◌, continue,
}

module _ {x : External} where
  -- Nothing that is there goes.
  pub record Grows (s t : Metastore x) : Type 0 where
    pub volumes : (k : Text) → contains_key k s.volumes ≡ true → contains_key k t.volumes ≡ true
    pub databases :
        (k : Text) → contains_key k s.databases ≡ true → contains_key k t.databases ≡ true
    pub schemas :
        (k : Text × Text) → contains_key k s.schemas ≡ true → contains_key k t.schemas ≡ true
    pub tables :
        (k : Text × Text × Text) → contains_key k s.tables ≡ true → contains_key k t.tables ≡ true

  pub Grows-refl : (s : Metastore x) → Grows s s
  Grows-refl s = record {
    volumes = λ k h. h;
    databases = λ k h. h;
    schemas = λ k h. h;
    tables = λ k h. h;
  }

  pub Grows-trans : (s t u : Metastore x) → Grows s t → Grows t u → Grows s u
  Grows-trans s t u g h = record {
    volumes = λ k e. h.volumes k (g.volumes k e);
    databases = λ k e. h.databases k (g.databases k e);
    schemas = λ k e. h.schemas k (g.schemas k e);
    tables = λ k e. h.tables k (g.tables k e);
  }

  pub put_volume-Grows :
      (k : Text) (row : RwObject (Volume x)) (store : x.ObjectStore) (s : Metastore x)
      → Grows s (put_volume k row store s)
  unfolding put_volume
  put_volume-Grows k row store s = record {
    volumes = λ j h. insert_keeps k j row s.volumes h;
    databases = λ j h. h;
    schemas = λ j h. h;
    tables = λ j h. h;
  }

  pub put_database-Grows :
      (k : Text) (row : RwObject Database) (s : Metastore x) → Grows s (put_database k row s)
  unfolding put_database
  put_database-Grows k row s = record {
    volumes = λ j h. h;
    databases = λ j h. insert_keeps k j row s.databases h;
    schemas = λ j h. h;
    tables = λ j h. h;
  }

  pub put_schema-Grows :
      (k : Text × Text) (row : RwObject Schema) (s : Metastore x) → Grows s (put_schema k row s)
  unfolding put_schema
  put_schema-Grows k row s = record {
    volumes = λ j h. h;
    databases = λ j h. h;
    schemas = λ j h. insert_keeps k j row s.schemas h;
    tables = λ j h. h;
  }

  pub put_table-Grows :
      (k : Text × Text × Text) (row : RwObject (Table x)) (s : Metastore x)
      → Grows s (put_table k row s)
  unfolding put_table
  put_table-Grows k row s = record {
    volumes = λ j h. h;
    databases = λ j h. h;
    schemas = λ j h. h;
    tables = λ j h. insert_keeps k j row s.tables h;
  }

  -- A step that ends well loses nothing and brings something about.
  abbrev pub Ensures :
      {A : Type 0} → Metastore x → (Metastore x → Type 0) → ConfigResult A × Metastore x → Type 0
  Ensures s P (ok a, t) = Grows s t × P t
  Ensures s P (err e, t) = Unit {0}
  Ensures s P (blocked, t) = Unit {0}

  -- What a step brings about stays, and where it is so the step changes nothing.
  pub record Settles (f : Setup x (Unit {0})) (P : Metastore x → Type 0) : Type 1 where
    pub again : (s : Metastore x) → P s → f s ≡ (ok tt, s)
    pub ensures : (s : Metastore x) → Ensures s P (f s)
    pub stays : (s t : Metastore x) → Grows s t → P s → P t

  pub pure-Settles : Settles (pure tt) (λ s. Unit {0})
  pure-Settles = record {
    again = λ s p. refl;
    ensures = λ s. (Grows-refl s, tt);
    stays = λ s t g p. tt;
  }

  Ensures-trans :
      {A : Type 0} (s t : Metastore x) (Q : Metastore x → Type 0) (r : ConfigResult A × Metastore x)
      → Grows s t
      → Ensures t Q r
      → Ensures s Q r
  Ensures-trans s t Q (ok a, u) g h = (Grows-trans s t u g h.0, h.1)
  Ensures-trans s t Q (err e, u) g h = tt
  Ensures-trans s t Q (blocked, u) g h = tt

  -- A step, and one behind it.
  pub Ensures-bind :
      {A B : Type 0} (s : Metastore x) (P Q : Metastore x → Type 0)
      (r : ConfigResult A × Metastore x) (f : A → Setup x B)
      → Ensures s P r
      → ((a : A) (t : Metastore x) → P t → Ensures t Q (f a t))
      → Ensures s Q (continue r f)
  Ensures-bind s P Q (ok a, t) f h k = Ensures-trans s t Q (f a t) h.0 (k a t h.1)
  Ensures-bind s P Q (err e, t) f h k = tt
  Ensures-bind s P Q (blocked, t) f h k = tt

  Ensures-also :
      {A : Type 0} (t : Metastore x) (P Q : Metastore x → Type 0) (r : ConfigResult A × Metastore x)
      → ((u : Metastore x) → Grows t u → P u)
      → Ensures t Q r
      → Ensures t (λ u. P u × Q u) r
  Ensures-also t P Q (ok a, u) p h = (h.0, (p u h.0, h.1))
  Ensures-also t P Q (err e, u) p h = tt
  Ensures-also t P Q (blocked, u) p h = tt

  pub lift-Ensures :
      {A : Type 0} (s : Metastore x) (r : ConfigResult A) → Ensures s (λ t. Unit {0}) (lift r s)
  lift-Ensures s (ok a) = (Grows-refl s, tt)
  lift-Ensures s (err e) = tt
  lift-Ensures s blocked = tt

  pub then-Settles :
      (f g : Setup x (Unit {0})) (P Q : Metastore x → Type 0)
      → Settles f P
      → Settles g Q
      → Settles (f >> g) (λ s. P s × Q s)
  then-Settles f g P Q a b = record {
    again = λ s p. ap (λ r. continue r (λ _. g)) (a.again s p.0) ∙ b.again s p.1;
    ensures = λ s.
        Ensures-bind s P _ (f s) (λ _. g) (a.ensures s)
          (λ u t p. Ensures-also t P Q (g t) (λ v e. a.stays t v e p) (b.ensures t));
    stays = λ s t e p. (a.stays s t e p.0, b.stays s t e p.1);
  }
