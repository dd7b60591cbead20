-- ===== src/Storage/Objects.antt =====
-- storage/s3_client.py and storage/presigned.py: the requests that the storage makes of boto3. What boto3 does
-- with them is not modelled; a request is the method and the arguments that it is given.
use pid_docs.Prelude.{ℕ, String, ◌||◌, Option, none, some, List, [], ◌∷◌, if◌then◌else◌}
use pid_docs.Prelude.Text.{is_empty}
use pid_docs.Config.{Settings, unset}

-- The keyword arguments of `boto3.client("s3", ...)`; path-style addressing and SigV4 come with an endpoint.
pub record Client : Type 0 where
  pub region_name : String
  pub credentials : Option (String × String)
  pub endpoint_url : Option String

-- `_credentials_kwargs`: both keys, or neither.
pub credentials_kwargs : {Int : Type 0} → Settings Int → Option (String × String)
credentials_kwargs s = elim s.aws_access_key_id [
  | none ↦ none
  | some key ↦ elim s.aws_secret_access_key [
    | none ↦ none
    | some secret ↦ if is_empty key || is_empty secret then none else some (key, secret)
  ]
]

-- `s3_endpoint_url` is the variable S3_ENDPOINT_URL of the process.
pub get_s3_client : {Int : Type 0} → Settings Int → Option String → Client
unfolding credentials_kwargs
get_s3_client s s3_endpoint_url = record {
  region_name = s.s3_region;
  credentials = credentials_kwargs s;
  endpoint_url = if unset s3_endpoint_url then none else s3_endpoint_url;
}

pub data Argument (Int : Type 0) : Type 0 where
  text : String → Argument Int
  number : Int → Argument Int
  body : List ℕ → Argument Int

-- A call of a client: at once, or signed, for as many seconds.
pub data Request (Int : Type 0) : Type 0 where
  call : String → List (String × Argument Int) → Request Int
  signed : String → List (String × Argument Int) → Int → Request Int

abbrev pub sse_algorithm : String
sse_algorithm = "AES256"

module _ {Int : Type 0} where
  unfoldable pub put_object : String → String → List ℕ → String → Request Int
  put_object bucket key bytes content_type = call "put_object" (
      ("Bucket", text bucket)
      ∷ ("Key", text key)
      ∷ ("Body", body bytes)
      ∷ ("ContentType", text content_type)
      ∷ ("ServerSideEncryption", text sse_algorithm)
      ∷ [])

  unfoldable pub delete_object : String → String → Request Int
  delete_object bucket key = call "delete_object" (("Bucket", text bucket) ∷ ("Key", text key) ∷ [])

  expiry_seconds : Settings Int → Int
  expiry_seconds s = s.presigned_url_expiry_seconds

  unfoldable pub generate_presigned_put_url :
      Settings Int → String → String → Int → String → Request Int
  unfolding expiry_seconds
  generate_presigned_put_url s bucket key content_length content_type =
      signed "put_object"
        (("Bucket", text bucket)
          ∷ ("Key", text key)
          ∷ ("ContentType", text content_type)
          ∷ ("ContentLength", number content_length)
          ∷ ("ServerSideEncryption", text sse_algorithm)
          ∷ [])
        (expiry_seconds s)

  unfoldable pub generate_presigned_get_url : Settings Int → String → String → Request Int
  unfolding expiry_seconds
  generate_presigned_get_url s bucket key =
      signed "get_object" (("Bucket", text bucket) ∷ ("Key", text key) ∷ []) (expiry_seconds s)
