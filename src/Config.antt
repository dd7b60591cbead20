-- ===== src/Config.antt =====
-- config.py: the settings that are read from the environment when the process starts. `env` is what the
-- environment and the file `.env` bring together; reading an integer is pydantic's, so `Int`, `int` for the
-- defaults and `parse_int` are parameters.
pub mod Startup
mod Tests
use Prim.Native.Char.{code}
use pid_docs.Prelude.{
  ℕ, String, text_eq, Bool, true, false, not, ◌&&◌, ◌||◌, Option, none, some, List, [], ◌∷◌, ◌==◌,
  ltb, is_some, get_or, filter, ◌++◌, if◌then◌else◌,
}
use pid_docs.Prelude.Text.{is_empty}
use pid_docs.Prelude.Exec.{Result, ok, err}

-- `s.startswith(p)`
unfoldable pub startswith : String → String → Bool
startswith s String.[] = true
startswith String.[] (String.◌∷◌ d p) = false
startswith (String.◌∷◌ c s) (String.◌∷◌ d p) = code c == code d && startswith s p

-- `v in allowed`
abbrev pub is_in : String → List String → Bool
is_in v [] = false
is_in v (a ∷ allowed) = text_eq v a || is_in v allowed

abbrev pub regions : List String
regions = "eu-central-1" ∷ "us-east-1" ∷ []

abbrev pub environments : List String
environments = "development" ∷ "staging" ∷ "production" ∷ []

validate_data_region : String → Bool
validate_data_region v = is_in v regions

validate_stripe_secret : String → Bool
unfolding startswith
validate_stripe_secret v = startswith v "sk_live_" || startswith v "sk_test_"

validate_stripe_webhook : String → Bool
unfolding startswith
validate_stripe_webhook v = startswith v "whsec_"

-- `not s` of an optional text
abbrev pub unset : Option String → Bool
unset none = true
unset (some s) = is_empty s

pub record Settings (Int : Type 0) : Type 0 where
  pub database_url : String
  pub redis_url : String
  pub s3_bucket_name : String
  pub s3_region : String
  pub supabase_url : String
  pub supabase_service_role_key : String
  pub jwt_rs256_public_key : String
  pub stripe_secret_key : String
  pub stripe_webhook_secret : String
  pub sendgrid_api_key : String
  pub hmac_server_secret : String
  pub ml_model_s3_key : String
  pub oda_converter_path : String
  pub aws_access_key_id : Option String
  pub aws_secret_access_key : Option String
  pub posthog_api_key : Option String
  pub posthog_host : String
  pub ml_model_version : Option String
  pub oda_license_expiry_date : Option String
  pub max_upload_size_bytes : Int
  pub presigned_url_expiry_seconds : Int
  pub ml_job_timeout_seconds : Int
  pub celery_broker_url : Option String
  pub data_region : String
  pub environment : String

-- the variables without a default
abbrev pub required : List String
required =
    "DATABASE_URL" ∷ "REDIS_URL" ∷ "S3_BUCKET_NAME" ∷ "S3_REGION" ∷ "SUPABASE_URL"
    ∷ "SUPABASE_SERVICE_ROLE_KEY" ∷ "JWT_RS256_PUBLIC_KEY" ∷ "STRIPE_SECRET_KEY"
    ∷ "STRIPE_WEBHOOK_SECRET" ∷ "SENDGRID_API_KEY" ∷ "HMAC_SERVER_SECRET" ∷ "ML_MODEL_S3_KEY"
    ∷ "ODA_CONVERTER_PATH" ∷ []

-- the validator of a field, if it has one
validator : String → String → Bool
unfolding validate_data_region validate_stripe_secret validate_stripe_webhook
validator n v =
    if text_eq n "DATA_REGION"
    then validate_data_region v
    else if text_eq n "STRIPE_SECRET_KEY"
    then validate_stripe_secret v
    else if text_eq n "STRIPE_WEBHOOK_SECRET"
    then validate_stripe_webhook v
    else true

-- a required field: it must be there, and its validator accept it
is_bad : (String → Option String) → String → Bool
unfolding validator
is_bad env n = elim (env n) [ none ↦ true | some v ↦ not (validator n v) ]

-- a field with a default, which no validator sees
is_bad_default : (String → Option String) → String → Bool
unfolding validator
is_bad_default env n = elim (env n) [ none ↦ false | some v ↦ not (validator n v) ]

-- `_apply_fallbacks_and_warnings`, without its log lines
broker : Option String → String → Option String
broker url redis_url = if unset url then some redis_url else url

known_environment : String → String
known_environment e = if is_in e environments then e else "production"

unfoldable pub apply_fallbacks : {Int : Type 0} → Settings Int → Settings Int
unfolding broker known_environment
apply_fallbacks s = record s {
  celery_broker_url = broker s.celery_broker_url s.redis_url;
  environment = known_environment s.environment;
}

-- `a < b` on texts
text_before : String → String → Bool
text_before s String.[] = false
text_before String.[] (String.◌∷◌ d t) = true
text_before (String.◌∷◌ c s) (String.◌∷◌ d t) =
    ltb (code c) (code d) || (code c == code d && text_before s t)

unfoldable pub insert_name : String → List String → List String
unfolding text_before
insert_name n [] = n ∷ []
insert_name n (m ∷ ms) =
    let rest = insert_name n ms in
    if text_eq n m then m ∷ ms else if text_before n m then n ∷ m ∷ ms else m ∷ rest

-- each name once, in order
unfoldable pub sorted_set : List String → List String
unfolding insert_name
sorted_set [] = []
sorted_set (n ∷ ns) = insert_name n (sorted_set ns)

module _ {Int : Type 0} (int : ℕ → Int) (parse_int : String → Option Int)
    (env : String → Option String) where
  is_bad_int : String → Bool
  is_bad_int n = elim (env n) [ none ↦ false | some v ↦ not (is_some (parse_int v)) ]

  -- the names in the errors of `Settings()`
  unfoldable pub bad_names : List String
  unfolding is_bad is_bad_default is_bad_int
  bad_names =
      filter (is_bad env) required
      ++ filter is_bad_int
          ("MAX_UPLOAD_SIZE_BYTES" ∷ "PRESIGNED_URL_EXPIRY_SECONDS" ∷ "ML_JOB_TIMEOUT_SECONDS" ∷ [])
      ++ filter (is_bad_default env) ("DATA_REGION" ∷ [])

  -- `sorted({...})`
  unfoldable pub missing_or_invalid : List String
  unfolding bad_names
  missing_or_invalid = sorted_set bad_names

  given : String → String
  given n = get_or (env n) ""

  given_int : String → ℕ → Int
  given_int n d = elim (env n) [ none ↦ int d | some v ↦ get_or (parse_int v) (int d) ]

  -- the fields as they are read
  unfoldable pub fields : Settings Int
  unfolding given given_int
  fields = record {
    database_url = given "DATABASE_URL";
    redis_url = given "REDIS_URL";
    s3_bucket_name = given "S3_BUCKET_NAME";
    s3_region = given "S3_REGION";
    supabase_url = given "SUPABASE_URL";
    supabase_service_role_key = given "SUPABASE_SERVICE_ROLE_KEY";
    jwt_rs256_public_key = given "JWT_RS256_PUBLIC_KEY";
    stripe_secret_key = given "STRIPE_SECRET_KEY";
    stripe_webhook_secret = given "STRIPE_WEBHOOK_SECRET";
    sendgrid_api_key = given "SENDGRID_API_KEY";
    hmac_server_secret = given "HMAC_SERVER_SECRET";
    ml_model_s3_key = given "ML_MODEL_S3_KEY";
    oda_converter_path = given "ODA_CONVERTER_PATH";
    aws_access_key_id = env "AWS_ACCESS_KEY_ID";
    aws_secret_access_key = env "AWS_SECRET_ACCESS_KEY";
    posthog_api_key = env "POSTHOG_API_KEY";
    posthog_host = get_or (env "POSTHOG_HOST") "https://app.posthog.com";
    ml_model_version = env "ML_MODEL_VERSION";
    oda_license_expiry_date = env "ODA_LICENSE_EXPIRY_DATE";
    max_upload_size_bytes = given_int "MAX_UPLOAD_SIZE_BYTES" 104857600;
    presigned_url_expiry_seconds = given_int "PRESIGNED_URL_EXPIRY_SECONDS" 900;
    ml_job_timeout_seconds = given_int "ML_JOB_TIMEOUT_SECONDS" 1200;
    celery_broker_url = env "CELERY_BROKER_URL";
    data_region = get_or (env "DATA_REGION") "eu-central-1";
    environment = get_or (env "ENVIRONMENT") "production";
  }

  -- `_load_settings`; `err` is the exit with status 1, and the names that it prints
  unfoldable pub load_settings : Result (List String) (Settings Int)
  unfolding missing_or_invalid fields apply_fallbacks
  load_settings = elim missing_or_invalid [
    | [] ↦ ok (apply_fallbacks fields)
    | n ∷ names ↦ err (n ∷ names)
  ]
