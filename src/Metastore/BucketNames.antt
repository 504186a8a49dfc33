-- ===== src/Metastore/BucketNames.antt =====
-- `validate_bucket_name` (crates/catalog-metastore/src/models/volumes.rs).
use rustice.Prelude.{ℕ, true, not, ◌≡◌, ◌↔◌, [], ◌∷◌, Text, arith}
use rustice.Metastore.Volume.{
  validate_bucket_name, is_bucket_char, is_separator, is_ascii_alphanumeric, all, last_is,
}

-- A character of the alphabet is a letter or digit unless it is a separator.
separator_or_alphanumeric :
    (c : ℕ) → is_bucket_char c ≡ true → is_separator c ≡ not (is_ascii_alphanumeric c)
unfolding is_bucket_char is_separator is_ascii_alphanumeric
separator_or_alphanumeric c h = ground arith

last_is-all :
    (c : ℕ) (s : Text)
    → all is_bucket_char (c ∷ s) ≡ true
    → last_is is_separator (c ∷ s) ≡ not (last_is is_ascii_alphanumeric (c ∷ s))
last_is-all c [] chars = ground (arith, separator_or_alphanumeric c)
last_is-all c (d ∷ s) chars = ground (arith, last_is-all d s)

-- A bucket name that is not empty passes the validation exactly if all its characters are ASCII
-- letters, digits, hyphens or underscores, and the first and the last are letters or digits.
validate_bucket_name_lem :
    (c : ℕ) (s : Text)
    → (validate_bucket_name (c ∷ s) ≡ true) ↔ (
        (all is_bucket_char (c ∷ s) ≡ true)
        × (is_ascii_alphanumeric c ≡ true)
        × (last_is is_ascii_alphanumeric (c ∷ s) ≡ true))
unfolding validate_bucket_name
validate_bucket_name_lem c s = ground (arith, separator_or_alphanumeric c, last_is-all c s)
