-- ===== src/Metastore/Volume.antt =====
-- crates/catalog-metastore/src/models/volumes.rs: volumes, and the object store behind one.
use rustice.Prelude.{
  Bool, true, false, ◌&&◌, ◌||◌, not, Option, none, some, [], ◌∷◌, ◌++◌, Text, codes, text_beq, leb,
  nat_beq, ℕ,
}
use rustice.Metastore.Error.{Result, ok, context, object_store, filesystem, ◌>>=◌}
use rustice.Metastore.External.{External, World}
use rustice.Metastore.Models.{PartialEq, VolumeIdent, option_eq}

pub record AwsAccessKeyCredentials : Type 0 where
  pub aws_access_key_id : Text
  pub aws_secret_access_key : Text
  pub aws_session_token : Option Text

pub data AwsCredentials : Type 0 where
  access_key : AwsAccessKeyCredentials → AwsCredentials
  token : Text → AwsCredentials

pub record S3Volume (x : External) : Type 0 where
  pub region : Option Text
  pub bucket : Option Text
  pub endpoint : Option Text
  pub credentials : Option AwsCredentials
  pub client_options : Option x.ClientOptions

pub data VolumeType (x : External) : Type 0 where
  s3 : S3Volume x → VolumeType x
  file : Text → VolumeType x
  memory : VolumeType x

pub record Volume (x : External) : Type 0 where
  pub ident : VolumeIdent
  pub volume : VolumeType x

unfoldable pub credentials_eq : AwsCredentials → AwsCredentials → Bool
credentials_eq (access_key a) (access_key b) =
    text_beq a.aws_access_key_id b.aws_access_key_id
    && (text_beq a.aws_secret_access_key b.aws_secret_access_key
        && option_eq text_beq a.aws_session_token b.aws_session_token)
credentials_eq (token a) (token b) = text_beq a b
credentials_eq _ _ = false

-- `str::starts_with`
abbrev starts_with : Text → Text → Bool
starts_with [] s = true
starts_with (c ∷ p) [] = false
starts_with (c ∷ p) (d ∷ s) = nat_beq c d && starts_with p s

abbrev with_option {ℓ κ} : {A : Type ℓ} {B : Type κ} → (A → B → B) → Option A → B → B
with_option set none b = b
with_option set (some a) b = set a b

unfoldable pub set_credentials : (x : External) → AwsCredentials → x.S3Builder → x.S3Builder
set_credentials x (access_key creds) b = with_option x.with_token creds.aws_session_token (
    x.with_secret_access_key creds.aws_secret_access_key
      (x.with_access_key_id creds.aws_access_key_id b))
set_credentials x (token t) b = x.with_token t b

unfoldable pub set_endpoint : (x : External) → Text → x.S3Builder → x.S3Builder
set_endpoint x e b = x.with_allow_http (starts_with (codes "http:") e) (x.with_endpoint e b)

module _ {x : External} where
  unfoldable pub s3_volume_eq : S3Volume x → S3Volume x → Bool
  s3_volume_eq a b =
      option_eq text_beq a.region b.region
      && (option_eq text_beq a.bucket b.bucket
          && (option_eq text_beq a.endpoint b.endpoint
              && option_eq credentials_eq a.credentials b.credentials))

  unfoldable pub volume_type_eq : VolumeType x → VolumeType x → Bool
  volume_type_eq (s3 a) (s3 b) = s3_volume_eq a b
  volume_type_eq (file a) (file b) = text_beq a b
  volume_type_eq memory memory = true
  volume_type_eq _ _ = false

  unfoldable pub volume_beq : Volume x → Volume x → Bool
  volume_beq a b = text_beq a.ident b.ident && volume_type_eq a.volume b.volume

  instance abbrev pub volume_eq : PartialEq (Volume x)
  volume_eq = record { eq = volume_beq }

  unfoldable pub get_s3_builder : S3Volume x → x.S3Builder
  get_s3_builder v = with_option (set_credentials x) v.credentials (
      with_option (set_endpoint x) v.endpoint (
        with_option x.with_bucket_name v.bucket (
          with_option x.with_region v.region
            (with_option x.with_client_options v.client_options x.new_builder))))

  unfoldable pub volume_type_store : World x → VolumeType x → Result x.ObjectStore
  volume_type_store w (s3 v) = context object_store (x.build_s3 (get_s3_builder v))
  volume_type_store w (file path) = context filesystem (w.create_dir_all path) >>= λ _.
      context object_store (w.local_file_system path)
  volume_type_store w memory = ok w.in_memory

  unfoldable pub get_object_store : World x → Volume x → Result x.ObjectStore
  get_object_store w v = volume_type_store w v.volume

  unfoldable pub volume_type_prefix : VolumeType x → Text
  volume_type_prefix (s3 v) = elim v.bucket [ none ↦ codes "s3://" | some b ↦ codes "s3://" ++ b ]
  volume_type_prefix (file path) = codes "file://" ++ path
  volume_type_prefix memory = codes "memory://"

  -- `Volume::prefix`
  unfoldable pub prefix : Volume x → Text
  prefix v = volume_type_prefix v.volume

-- `validate_bucket_name`
unfoldable pub is_ascii_alphanumeric : ℕ → Bool
is_ascii_alphanumeric c =
    (leb b'a' c && leb c b'z') || ((leb b'A' c && leb c b'Z') || (leb b'0' c && leb c b'9'))

unfoldable pub is_bucket_char : ℕ → Bool
is_bucket_char c = is_ascii_alphanumeric c || (nat_beq c b'-' || nat_beq c b'_')

unfoldable pub is_separator : ℕ → Bool
is_separator c = nat_beq c b'-' || nat_beq c b'_'

abbrev pub all : (ℕ → Bool) → Text → Bool
all p [] = true
all p (c ∷ s) = p c && all p s

-- `starts_with(c)` and `ends_with(c)`, for a character that passes the test
abbrev pub first_is : (ℕ → Bool) → Text → Bool
first_is p [] = false
first_is p (c ∷ s) = p c

abbrev pub last_is : (ℕ → Bool) → Text → Bool
last_is p [] = false
last_is p (c ∷ []) = p c
last_is p (c ∷ d ∷ s) = last_is p (d ∷ s)

unfoldable pub validate_bucket_name : Text → Bool
unfolding is_bucket_char is_separator
validate_bucket_name s =
    all is_bucket_char s && not (first_is is_separator s || last_is is_separator s)
