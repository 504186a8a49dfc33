-- ===== src/Metastore/Models.antt =====
-- crates/catalog-metastore/src/models: identifiers, rows and their updates, and the foreign types
-- that a metastore is built over. An identifier that the code only compares is a number.
use rustice.Prelude.{
  ℕ, Bool, true, false, not, ◌&&◌, Option, none, some, [], ◌∷◌, Text, if◌then◌else◌, text_beq,
  text_eq, nat_beq, length,
}
use rustice.Prelude.HashMap.{HashMap, get}

abbrev pub DatabaseIdent : Type 0
DatabaseIdent = Text

abbrev pub VolumeIdent : Type 0
VolumeIdent = Text

abbrev pub Properties : Type 0
Properties = HashMap Text Text

pub record SchemaIdent : Type 0 where
  pub schema : Text
  pub database : DatabaseIdent

pub record TableIdent : Type 0 where
  pub table : Text
  pub schema : Text
  pub database : Text

-- `From<TableIdent> for SchemaIdent`
abbrev pub schema_ident : TableIdent → SchemaIdent
schema_ident ident = record { schema = ident.schema; database = ident.database }

-- A row with the times of its creation and of its last change.
pub record RwObject (T : Type 0) : Type 0 where
  pub value : T
  pub created_at : ℕ
  pub updated_at : ℕ

-- `==` on the rows' data; `client_options` of a volume does not take part in it.
pub record PartialEq (T : Type 0) : Type 0 where
  pub eq : T → T → Bool

module _ {T : Type 0} where
  abbrev pub new_row : ℕ → T → RwObject T
  new_row now v = record { value = v; created_at = now; updated_at = now }

  unfoldable pub update_row : ⦃p : PartialEq T⦄ → ℕ → T → RwObject T → RwObject T
  update_row ⦃p⦄ now v row =
      if not (p.eq v row.value) then record row { value = v; updated_at = now } else row

  abbrev pub touch : ℕ → RwObject T → RwObject T
  touch now row = record row { updated_at = now }

pub record Database : Type 0 where
  pub ident : DatabaseIdent
  pub properties : Option Properties
  pub volume : VolumeIdent
  pub should_refresh : Bool

pub record Schema : Type 0 where
  pub ident : SchemaIdent
  pub properties : Option Properties

pub data TableFormat : Type 0 where
  parquet iceberg : TableFormat

abbrev pub option_eq {ℓ} : {A : Type ℓ} → (A → A → Bool) → Option A → Option A → Bool
option_eq p none none = true
option_eq p (some a) (some b) = p a b
option_eq p _ _ = false

-- Every entry of the first map is in the second.
unfoldable pub is_submap : Properties → Properties → Bool
is_submap [] n = true
is_submap ((k, v) ∷ m) n = option_eq text_beq (some v) (get k n) && is_submap m n

-- `HashMap: PartialEq`
unfoldable pub properties_eq : Properties → Properties → Bool
properties_eq m n = nat_beq (length m) (length n) && is_submap m n

abbrev pub bool_eq : Bool → Bool → Bool
bool_eq true b = b
bool_eq false b = not b

instance abbrev pub database_eq : PartialEq Database
database_eq = record {
  eq = λ a b.
      text_beq a.ident b.ident
      && (option_eq properties_eq a.properties b.properties
          && (text_beq a.volume b.volume && bool_eq a.should_refresh b.should_refresh));
}

instance abbrev pub schema_eq : PartialEq Schema
schema_eq = record {
  eq = λ a b.
      text_beq a.ident.schema b.ident.schema
      && (text_beq a.ident.database b.ident.database
          && option_eq properties_eq a.properties b.properties);
}
