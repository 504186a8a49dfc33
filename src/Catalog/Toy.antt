-- ===== src/Catalog/Toy.antt =====
-- Providers to try the theorems on: a mirror of schemas with their tables, and an iceberg catalog. A
-- table is a number, and views are those from 100 on.
use rustice.Prelude.{
  ℕ, true, false, Option, none, some, List, [], ◌∷◌, Text, text_eq, pair_eq, codes, leb,
  if◌then◌else◌,
}
use rustice.Prelude.HashMap.{HashMap, get, insert, remove, keys, contains_key}
use rustice.Catalog.Method.{ok, not_found}
use rustice.Catalog.Source.{Source, base, view, Loaded, loaded, failed}
use rustice.Catalog.CachingSchema.{CachingSchema}
use rustice.Catalog.CachingCatalog.{CachingCatalog, empty_schema, new, with_refresh}

pub record World : Type 0 where
  pub mirror : HashMap Text (HashMap Text ℕ)
  pub remote : HashMap (Text × Text) ℕ

abbrev or_empty : Option (HashMap Text ℕ) → HashMap Text ℕ
or_empty none = []
or_empty (some m) = m

abbrev tables_of : Text → World → HashMap Text ℕ
tables_of p w = or_empty (get p w.mirror)

abbrev with_mirror : HashMap Text (HashMap Text ℕ) → World → World
with_mirror m w = record w { mirror = m }

abbrev answer_of : Option ℕ → Loaded ℕ
answer_of none = failed (not_found (codes "table"))
answer_of (some t) = loaded t

abbrev pub toy : Source
toy = record {
  World = World;
  SchemaProvider = Text;
  TableProvider = ℕ;
  Identifier = List Text;
  try_new = λ parts. ok parts;
  namespace = λ i. i;
  identifier_name = λ i. [];
  TableBuilder = ℕ;
  table_type = λ t. if leb 100 t then view else base;
  is_table_builder = λ t. false;
  schema_names = λ w. keys w.mirror;
  schema = λ n w. if contains_key n w.mirror then some n else none;
  register_schema = λ n p w. (ok none, with_mirror (insert n [] w.mirror) w);
  deregister_schema = λ n cascade w. (ok none, with_mirror (remove n w.mirror) w);
  memory_schema = [];
  table_names = λ p w. keys (tables_of p w);
  table = λ p t w. ok (get t (tables_of p w));
  register_table =
      λ p n t w. (ok none, with_mirror (insert p (insert n t (tables_of p w)) w.mirror) w);
  deregister_table =
      λ p n w. (ok none, with_mirror (insert p (remove n (tables_of p w)) w.mirror) w);
  table_exist = λ p n w. contains_key n (tables_of p w);
  create_namespace = λ n w. (ok tt, w);
  drop_namespace = λ n w. (ok tt, w);
  load_tabular = λ n t w. answer_of (get (n, t) w.remote);
  drop_table = λ n t w. (ok tt, record w { remote = remove (n, t) w.remote });
  build = λ b n t w. (ok b, record w { remote = insert (n, t) b w.remote });
  mirror_schema_exists = λ n w. contains_key n w.mirror;
  mirror_register_table = λ i w. (ok tt, w);
}

-- A schema with a table that the iceberg catalog has, too
abbrev pub world : World
world = record {
  mirror = (codes "s", (codes "t", 1) ∷ []) ∷ [];
  remote = ((codes "s", codes "t"), 1) ∷ [];
}

abbrev pub iceberg_schema : CachingSchema toy × World
iceberg_schema = (empty_schema {x = toy} true (codes "s") (codes "s"), world)

abbrev pub refreshing : CachingCatalog toy × World
refreshing = (with_refresh {x = toy} true (new {x = toy} (codes "db") true), world)
