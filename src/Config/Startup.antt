-- ===== src/Config/Startup.antt =====
-- What a process that has started can rely on (config.py), and when it refuses to start.
use pid_docs.Prelude.{
  ℕ, ◌*◌, String, text_eq, eq_iff, ◌≡◌, ◌||◌, ◌≢◌, refl, Bool, true, false, ◌⊎◌, inl, inr, Option,
  none, some, List, [], ◌∷◌, ◌++◌, arith, get_or, filter, Bool-cases, Option-cases,
}
use pid_docs.Prelude.Exec.{ok, err}
use pid_docs.Account.Deletion.{erasure_countdown}
use pid_docs.Config.{
  startswith, is_in, regions, environments, required, unset, is_bad, Settings, is_bad_default,
  broker, known_environment, apply_fallbacks, missing_or_invalid, bad_names, sorted_set,
  insert_name, fields, load_settings,
}

-- What every field of the settings that the code branches on holds.
pub record IsSound {Int : Type 0} (s : Settings Int) : Type 0 where
  pub region : is_in s.data_region regions ≡ true
  pub stage : is_in s.environment environments ≡ true
  pub key :
      (startswith s.stripe_secret_key "sk_live_" ≡ true)
      ⊎ (startswith s.stripe_secret_key "sk_test_" ≡ true)
  pub webhook : startswith s.stripe_webhook_secret "whsec_" ≡ true
  pub broker_url : (s.celery_broker_url ≡ some s.redis_url) ⊎ (unset s.celery_broker_url ≡ false)

-- An address of the list passes a membership filter of all of it.
filter-is_in :
    (p : String → Bool) (n : String) (names : List String)
    → is_in n names ≡ true
    → p n ≡ true
    → is_in n (filter p names) ≡ true
filter-is_in p n [] h k = cc
filter-is_in p n (m ∷ names) h k = elim (Bool-cases (text_eq n m)) [
  | inl same ↦
      let e : n ≡ m = (eq_iff n m).0 same in
      let kept : p m ≡ true = rw (← e) k in rw kept (rw same refl)
  | inr other ↦ ground (arith, filter-is_in p n names)
]

-- A filter that finds nothing rejects every member.
filter_nil :
    (p : String → Bool) (n : String) (names : List String)
    → is_in n names ≡ true
    → filter p names ≡ []
    → p n ≡ false
filter_nil p n names h k = elim (Bool-cases (p n)) [
  | inr e ↦ e
  | inl e ↦ let found : is_in n [] ≡ true = rw k at (filter-is_in p n names h e) in cc
]

append_nil : (xs ys : List String) → xs ++ ys ≡ [] → (xs ≡ []) × (ys ≡ [])
append_nil [] ys h = (refl, h)
append_nil (x ∷ xs) ys h = absurd (ground arith)

is_in-append : (n : String) (xs ys : List String) → is_in n xs ≡ true → is_in n (xs ++ ys) ≡ true
is_in-append n [] ys h = cc
is_in-append n (x ∷ xs) ys h = ground (arith, is_in-append n xs ys)

List-cases : (xs : List String) → (xs ≡ []) ⊎ ((y : String) × (ys : List String) × (xs ≡ y ∷ ys))
List-cases [] = inl refl
List-cases (y ∷ ys) = inr (y, ys, refl)

known_environment-is_in : (e : String) → is_in (known_environment e) environments ≡ true
unfolding known_environment
known_environment-is_in e = elim (Bool-cases (is_in e environments)) [
  | inl known ↦ ground arith
  | inr other ↦ rw other refl
]

broker_cases :
    (url : Option String) (redis_url : String)
    → (broker url redis_url ≡ some redis_url) ⊎ (unset (broker url redis_url) ≡ false)
unfolding broker
broker_cases url redis_url = elim (Bool-cases (unset url)) [
  | inl e ↦ inl (ground arith)
  | inr e ↦ inr (ground arith)
]

-- Any text but two is read as production.
known_environment_production :
    (e : String) → e ≢ "development" → e ≢ "staging" → known_environment e ≡ "production"
unfolding known_environment
known_environment_production e dev stage =
    ground (arith, eq_iff e "development", eq_iff e "staging", eq_iff e "production")

insert_name-filled : (n : String) (ms : List String) → insert_name n ms ≡ [] → ⊥
unfolding insert_name
insert_name-filled n [] e = cc
insert_name-filled n (m ∷ ms) e = ground arith

-- No name is lost.
sorted_set_nil : (ns : List String) → sorted_set ns ≡ [] → ns ≡ []
unfolding sorted_set
sorted_set_nil [] e = refl
sorted_set_nil (n ∷ ns) e = absurd (insert_name-filled n (sorted_set ns) e)

is_in-insert_name :
    (n m : String) (ms : List String)
    → text_eq n m || is_in n ms ≡ true
    → is_in n (insert_name m ms) ≡ true
unfolding insert_name
is_in-insert_name n m [] h = h
is_in-insert_name n m (k ∷ ms) h =
    ground (arith, eq_iff m k, eq_iff n m, eq_iff n k, is_in-insert_name n m ms)

is_in-sorted_set :
    (n : String) (ns : List String) → is_in n ns ≡ true → is_in n (sorted_set ns) ≡ true
unfolding sorted_set
is_in-sorted_set n [] h = h
is_in-sorted_set n (m ∷ ns) h =
    is_in-insert_name n m (sorted_set ns) (ground (arith, is_in-sorted_set n ns))

module _ {Int : Type 0} (int : ℕ → Int) (parse_int : String → Option Int)
    (env : String → Option String) where
  started :
      (s : Settings Int)
      → load_settings int parse_int env ≡ ok s
      → (missing_or_invalid int parse_int env ≡ [])
        × (s ≡ apply_fallbacks (fields int parse_int env))
  unfolding load_settings
  started s h = elim (List-cases (missing_or_invalid int parse_int env)) [
    | inl e ↦ (e, ground arith)
    | inr (n, names, e) ↦ absurd (ground arith)
  ]

  good :
      missing_or_invalid int parse_int env ≡ []
      → (is_bad env "STRIPE_SECRET_KEY" ≡ false)
        × (is_bad env "STRIPE_WEBHOOK_SECRET" ≡ false)
        × (is_bad_default env "DATA_REGION" ≡ false)
  unfolding missing_or_invalid bad_names
  good h =
      let (a, b) = append_nil _ _ (sorted_set_nil _ h) in
      let (c, d) = append_nil _ _ a in
      (
        filter_nil (is_bad env) "STRIPE_SECRET_KEY" required refl c,
        filter_nil (is_bad env) "STRIPE_WEBHOOK_SECRET" required refl c,
        filter_nil (is_bad_default env) "DATA_REGION" ("DATA_REGION" ∷ []) refl b,
      )

  region_is_in :
      is_bad_default env "DATA_REGION" ≡ false
      → is_in (get_or (env "DATA_REGION") "eu-central-1") regions ≡ true
  unfolding is_bad_default
  region_is_in h = elim (Option-cases (env "DATA_REGION")) [
    | inl e ↦ rw e refl
    | inr (v, e) ↦ ground arith
  ]

  key_starts :
      is_bad env "STRIPE_SECRET_KEY" ≡ false
      → let v = get_or (env "STRIPE_SECRET_KEY") "" in
        (startswith v "sk_live_" ≡ true) ⊎ (startswith v "sk_test_" ≡ true)
  unfolding is_bad
  key_starts h = elim (Option-cases (env "STRIPE_SECRET_KEY")) [
    | inl e ↦ absurd (ground arith)
    | inr (v, e) ↦ elim (Bool-cases (startswith v "sk_live_")) [
      | inl live ↦ inl (ground arith)
      | inr test ↦ inr (ground arith)
    ]
  ]

  webhook_starts :
      is_bad env "STRIPE_WEBHOOK_SECRET" ≡ false
      → startswith (get_or (env "STRIPE_WEBHOOK_SECRET") "") "whsec_" ≡ true
  unfolding is_bad
  webhook_starts h = elim (Option-cases (env "STRIPE_WEBHOOK_SECRET")) [
    | inl e ↦ absurd (ground arith)
    | inr (v, e) ↦ ground arith
  ]

  fields-IsSound :
      missing_or_invalid int parse_int env ≡ []
      → IsSound (apply_fallbacks (fields int parse_int env))
  unfolding apply_fallbacks fields
  fields-IsSound h =
      let (key, webhook, region) = good h in
      record {
        region = region_is_in region;
        stage = known_environment-is_in (get_or (env "ENVIRONMENT") "production");
        key = key_starts key;
        webhook = webhook_starts webhook;
        broker_url = broker_cases (env "CELERY_BROKER_URL") (get_or (env "REDIS_URL") "");
      }

  -- Whatever the environment holds, a process that starts has one of the two regions, one of the three
  -- environments, Stripe secrets of the right kind, and a broker: the one that is set, or Redis.
  pub load_settings-IsSound :
      (s : Settings Int) → load_settings int parse_int env ≡ ok s → IsSound s
  unfolding load_settings
  load_settings-IsSound s h = let (none_bad, e) = started s h in rw e (fields-IsSound none_bad)

  -- Without a required variable the process does not start, and the message names the variable.
  pub load_settings-missing :
      (n : String)
      → is_in n required ≡ true
      → env n ≡ none
      → (names : List String) × (load_settings int parse_int env ≡ err names)
        × (is_in n names ≡ true)
  unfolding load_settings missing_or_invalid bad_names
  load_settings-missing n h k =
      let bad : is_bad env n ≡ true = ground arith in
      let named : is_in n (bad_names int parse_int env) ≡ true =
        is_in-append n _ _ (is_in-append n _ _ (filter-is_in (is_bad env) n required h bad)) in
      let listed : is_in n (missing_or_invalid int parse_int env) ≡ true =
        is_in-sorted_set n (bad_names int parse_int env) named in
      elim (List-cases (missing_or_invalid int parse_int env)) [
        | inl e ↦ let found : is_in n [] ≡ true = rw e at listed in cc
        | inr (m, names, e) ↦ (m ∷ names, ground arith, rw e at listed)
      ]

  production_delay :
      env "ENVIRONMENT" ≢ some "development"
      → env "ENVIRONMENT" ≢ some "staging"
      → erasure_countdown (apply_fallbacks (fields int parse_int env)).environment ≡ 30 * 24 * 3600
  unfolding apply_fallbacks fields erasure_countdown
  production_delay dev stage = elim (Option-cases (env "ENVIRONMENT")) [
    | inl e ↦ rw e refl
    | inr (v, e) ↦
        let p : known_environment v ≡ "production" =
          known_environment_production v (λ h. dev (ground arith)) (λ h. stage (ground arith)) in
        rw e (rw p refl)
  ]

  -- Only a process whose environment is explicitly set to development or staging erases deleted accounts
  -- without the delay of thirty days.
  pub load_settings-erasure_countdown :
      (s : Settings Int)
      → load_settings int parse_int env ≡ ok s
      → env "ENVIRONMENT" ≢ some "development"
      → env "ENVIRONMENT" ≢ some "staging"
      → erasure_countdown s.environment ≡ 30 * 24 * 3600
  unfolding load_settings
  load_settings-erasure_countdown s h dev stage =
      let (none_bad, e) = started s h in rw e (production_delay dev stage)

  -- The key of PostHog is that of the environment.
  pub posthog_api_key-load_settings :
      (s : Settings Int)
      → load_settings int parse_int env ≡ ok s
      → s.posthog_api_key ≡ env "POSTHOG_API_KEY"
  unfolding apply_fallbacks fields
  posthog_api_key-load_settings s h = let (none_bad, e) = started s h in rw e refl
