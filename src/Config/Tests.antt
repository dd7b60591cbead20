-- ===== src/Config/Tests.antt =====
-- Starting in concrete environments.
use pid_docs.Prelude.{ℕ, String, text_eq, refl, Option, none, some, [], ◌∷◌, if◌then◌else◌}
use pid_docs.Config.{Settings, is_in, apply_fallbacks, fields, load_settings, sorted_set}
use pid_docs.Config.Startup.{IsSound, load_settings-IsSound}

abbrev parse_int : String → Option ℕ
parse_int s = none

abbrev int : ℕ → ℕ
int n = n

-- Every variable is set; the environment is misspelt.
abbrev env : String → Option String
env n =
    if text_eq n "STRIPE_SECRET_KEY"
    then some "sk_test_1"
    else if text_eq n "STRIPE_WEBHOOK_SECRET"
    then some "whsec_1"
    else if text_eq n "ENVIRONMENT"
    then some "prod"
    else if is_in n (
        "DATA_REGION" ∷ "MAX_UPLOAD_SIZE_BYTES" ∷ "PRESIGNED_URL_EXPIRY_SECONDS"
        ∷ "ML_JOB_TIMEOUT_SECONDS" ∷ "CELERY_BROKER_URL" ∷ [])
    then none
    else some "x"

abbrev bare : String → Option String
bare n = none

abbrev loaded : Settings ℕ
loaded = apply_fallbacks (fields int parse_int env)

load_settings-IsSound_example : IsSound loaded
unfolding load_settings sorted_set
load_settings-IsSound_example = load_settings-IsSound int parse_int env loaded refl
