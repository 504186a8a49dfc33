-- ===== src/Catalog/Method.antt =====
-- Errors (crates/catalog/src/error.rs) and the monad of the methods: a method takes the cache that it
-- is called on, with the world of the providers behind it, and gives both back.
use rustice.Prelude.{Option, none, some, Text, Bool, if◌then◌else◌}

pub data IcebergError : Type 0 where
  catalog_not_found : IcebergError
  not_found other : Text → IcebergError

-- A `DataFusionError` is read as its message.
pub data Error : Type 0 where
  data_fusion : Text → Error
  -- the entity and its name
  invalid_cache : Text → Text → Error
  iceberg : IcebergError → Error

pub data Result (A : Type 0) : Type 0 where
  ok : A → Result A
  err : Error → Result A

abbrev pub Method : Type 0 → Type 0 → Type 0
Method S A = S → Result A × S

-- `ok_or_else`
abbrev pub ok_or : {A : Type 0} → Error → Option A → Result A
ok_or e none = err e
ok_or e (some a) = ok a

module _ {S : Type 0} where
  abbrev pub pure : {A : Type 0} → A → Method S A
  pure a s = (ok a, s)

  abbrev pub fail : {A : Type 0} → Error → Method S A
  fail e s = (err e, s)

  abbrev pub lift : {A : Type 0} → Result A → Method S A
  lift r s = (r, s)

  abbrev pub gets : {A : Type 0} → (S → A) → Method S A
  gets f s = (ok (f s), s)

  abbrev pub modify : (S → S) → Method S (Unit {0})
  modify f s = (ok tt, f s)

  abbrev pub when : Bool → Method S (Unit {0}) → Method S (Unit {0})
  when test m s = if test then m s else (ok tt, s)

  abbrev pub fail_if : Bool → Error → Method S (Unit {0})
  fail_if test e s = if test then (err e, s) else (ok tt, s)

  abbrev pub continue : {A B : Type 0} → Result A × S → (A → Method S B) → Result B × S
  continue (ok a, s) f = f a s
  continue (err e, s) f = (err e, s)

  infixl 5 ◌>>=◌ ◌>>◌
  abbrev pub ◌>>=◌ : {A B : Type 0} → Method S A → (A → Method S B) → Method S B
  ◌>>=◌ m f s = continue (m s) f

  abbrev pub ◌>>◌ : {B : Type 0} → Method S (Unit {0}) → Method S B → Method S B
  ◌>>◌ m k s = continue (m s) (λ _. k)
