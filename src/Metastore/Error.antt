-- ===== src/Metastore/Error.antt =====
-- crates/catalog-metastore/src/error.rs: the errors of the metastore, and the monad of its methods.
-- A foreign error is its message; the source locations and backtraces are not kept.
use rustice.Prelude.{Bool, true, false, Text, ◌≡◌, refl, ◌⊎◌, inl, inr}

pub data Error : Type 0 where
  table_data_exists : Text → Error
  table_requirement_failed : Text → Error
  object_store : Text → Error
  volume_already_exists volume_not_found : Text → Error
  database_already_exists database_not_found : Text → Error
  -- the schema, then its database
  schema_already_exists schema_not_found : Text → Text → Error
  -- the table, its schema, its database
  table_already_exists table_not_found : Text → Text → Text → Error
  -- the databases that use the volume, joined
  volume_in_use : Text → Error
  -- the database, then its schemas, joined
  database_in_use : Text → Text → Error
  iceberg table_metadata_builder serialize_metadata filesystem iceberg_spec : Text → Error
  table_volume_missing : Text → Error

-- `blocked`: the task waits for a lock that it holds itself, and never returns.
pub data Result {ℓ} (A : Type ℓ) : Type ℓ where
  ok : A → Result A
  err : Error → Result A
  blocked : Result A

-- What a foreign function returns: a value, or the message of its error.
pub data Outcome {ℓ} (A : Type ℓ) : Type ℓ where
  done : A → Outcome A
  failed : Text → Outcome A

-- `.context(…)`: wraps a foreign error.
abbrev pub context {ℓ} : {A : Type ℓ} → (Text → Error) → Outcome A → Result A
context wrap (done a) = ok a
context wrap (failed message) = err (wrap message)

-- `?` between results that do not touch the state.
infixl 5 ◌>>=◌
abbrev pub ◌>>=◌ {ℓ κ} : {A : Type ℓ} {B : Type κ} → Result A → (A → Result B) → Result B
ok a >>= f = f a
err e >>= f = err e
blocked >>= f = blocked

abbrev pub is_blocked {ℓ} : {A : Type ℓ} → Result A → Bool
is_blocked (ok a) = false
is_blocked (err e) = false
is_blocked blocked = true

pub Result-cases {ℓ} :
    {A : Type ℓ} (r : Result A)
    → ((a : A) × (r ≡ ok a)) ⊎ ((e : Error) × (r ≡ err e)) ⊎ (r ≡ blocked)
Result-cases (ok a) = inl (a, refl)
Result-cases (err e) = inr (inl (e, refl))
Result-cases blocked = inr (inr refl)

pub Outcome-cases {ℓ} :
    {A : Type ℓ} (o : Outcome A) → ((a : A) × (o ≡ done a)) ⊎ ((m : Text) × (o ≡ failed m))
Outcome-cases (done a) = inl (a, refl)
Outcome-cases (failed m) = inr (m, refl)
