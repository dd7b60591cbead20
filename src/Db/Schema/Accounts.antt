-- ===== src/Db/Schema/Accounts.antt =====
-- The tables of accounts, subscriptions and consents (alembic/versions/0001_initial_schema.py).
use pid_docs.Prelude.{[], ◌∷◌}
use pid_docs.Db.Schema.{
  varchar, uuid, integer, boolean, timestamptz, jsonb, one_of, exactly_one, Table,
}
use pid_docs.Db.Schema.Columns.{column, required, or_else, referring}

abbrev pub tier_table : Table
tier_table = record {
  name = "tier";
  columns =
      required (column "id" varchar)
      ∷ required (column "name" varchar)
      ∷ column "monthly_drawing_limit" integer
      ∷ or_else "FALSE" (required (column "team_features" boolean))
      ∷ or_else "FALSE" (required (column "api_access" boolean))
      ∷ [];
  primary_key = "id";
  unique = [];
  checks = [];
}

abbrev pub team_table : Table
team_table = record {
  name = "team";
  columns =
      or_else "gen_random_uuid()" (required (column "id" uuid))
      ∷ required (column "name" varchar)
      ∷ required (column "licensed_seats" integer)
      ∷ [];
  primary_key = "id";
  unique = [];
  checks = [];
}

abbrev pub user_table : Table
user_table = record {
  name = "user";
  columns =
      or_else "gen_random_uuid()" (required (column "id" uuid))
      ∷ required (column "email" varchar)
      ∷ required (column "display_name" varchar)
      ∷ column "password_hash" varchar
      ∷ or_else "FALSE" (required (column "email_verified" boolean))
      ∷ referring "team" (column "team_id" uuid)
      ∷ required (column "role" varchar)
      ∷ column "deleted_at" timestamptz
      ∷ column "anonymous_id" varchar
      ∷ column "token_invalidated_at" timestamptz
      ∷ [];
  primary_key = "id";
  unique = ("user_email_unique", "email" ∷ []) ∷ [];
  checks = one_of "role" ("user" ∷ "team_member" ∷ "team_admin" ∷ []) ∷ [];
}

abbrev pub subscription_table : Table
subscription_table = record {
  name = "subscription";
  columns =
      or_else "gen_random_uuid()" (required (column "id" uuid))
      ∷ referring "user" (column "user_id" uuid)
      ∷ referring "team" (column "team_id" uuid)
      ∷ referring "tier" (required (column "tier_id" varchar))
      ∷ required (column "billing_state" varchar)
      ∷ column "grace_period_start" timestamptz
      ∷ column "stripe_subscription_id" varchar
      ∷ column "stripe_customer_id" varchar
      ∷ column "current_period_end" timestamptz
      ∷ [];
  primary_key = "id";
  unique = [];
  checks =
      one_of "billing_state" ("Active" ∷ "Grace" ∷ "Canceled" ∷ [])
      ∷ exactly_one "user_id" "team_id"
      ∷ [];
}

abbrev pub ml_training_consent_table : Table
ml_training_consent_table = record {
  name = "ml_training_consent";
  columns =
      or_else "gen_random_uuid()" (required (column "id" uuid))
      ∷ referring "user" (column "user_id" uuid)
      ∷ referring "team" (column "team_id" uuid)
      ∷ or_else "FALSE" (required (column "opted_in" boolean))
      ∷ or_else "NOW()" (required (column "updated_at" timestamptz))
      ∷ [];
  primary_key = "id";
  unique = [];
  checks = exactly_one "user_id" "team_id" ∷ [];
}

abbrev pub stripe_event_table : Table
stripe_event_table = record {
  name = "stripe_event";
  columns =
      required (column "id" varchar)
      ∷ required (column "event_type" varchar)
      ∷ or_else "NOW()" (required (column "received_at" timestamptz))
      ∷ column "processed_at" timestamptz
      ∷ required (column "payload" jsonb)
      ∷ [];
  primary_key = "id";
  unique = [];
  checks = [];
}
