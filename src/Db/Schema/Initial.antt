-- ===== src/Db/Schema/Initial.antt =====
-- The statements of alembic/versions/0001_initial_schema.py, with the rows of db/seed_tiers.py and
-- db/seed_entity_classes.py. What an index is over is left out: an index stands for its name and its table.
use pid_docs.Prelude.{String, true, false, List, [], ◌∷◌, ◌++◌, map}
use pid_docs.Db.Schema.{
  Cell, null, text, number, flag, Row, Statement, create_extension, create_table, create_index,
  bulk_insert, drop_table,
}
use pid_docs.Db.Schema.Accounts.{
  tier_table, team_table, user_table, subscription_table, ml_training_consent_table,
  stripe_event_table,
}
use pid_docs.Db.Schema.Drawings.{
  stored_file_table, file_hash_blocklist_table, drawing_table, entity_class_table,
  detected_symbol_table, table_cell_table, user_correction_table, export_record_table,
  revision_comparison_table,
}

-- `_CREATE_STATEMENTS`
abbrev pub create_statements : List Statement
create_statements =
    create_extension "pgcrypto"
    ∷ create_table tier_table
    ∷ create_table team_table
    ∷ create_table user_table
    ∷ create_index "idx_user_team" "user"
    ∷ create_index "idx_user_email" "user"
    ∷ create_table subscription_table
    ∷ create_index "idx_subscription_user" "subscription"
    ∷ create_index "idx_subscription_team" "subscription"
    ∷ create_table stored_file_table
    ∷ create_index "idx_stored_file_hash" "stored_file"
    ∷ create_table file_hash_blocklist_table
    ∷ create_table drawing_table
    ∷ create_index "idx_drawing_team_state_date" "drawing"
    ∷ create_index "idx_drawing_user" "drawing"
    ∷ create_index "idx_drawing_fts" "drawing"
    ∷ create_table entity_class_table
    ∷ create_table detected_symbol_table
    ∷ create_index "idx_detected_symbol_drawing_rejected_class" "detected_symbol"
    ∷ create_index "idx_detected_symbol_drawing_page" "detected_symbol"
    ∷ create_table table_cell_table
    ∷ create_index "idx_table_cell_drawing_page" "table_cell"
    ∷ create_table user_correction_table
    ∷ create_index "idx_user_correction_symbol" "user_correction"
    ∷ create_index "idx_user_correction_cell" "user_correction"
    ∷ create_index "idx_user_correction_consent" "user_correction"
    ∷ create_table export_record_table
    ∷ create_table ml_training_consent_table
    ∷ create_table revision_comparison_table
    ∷ create_table stripe_event_table
    ∷ create_index "idx_stripe_event_received" "stripe_event"
    ∷ []

-- `_DROP_TABLES`
abbrev pub drop_tables : List String
drop_tables =
    "stripe_event" ∷ "revision_comparison" ∷ "ml_training_consent" ∷ "export_record"
    ∷ "user_correction" ∷ "table_cell" ∷ "detected_symbol" ∷ "entity_class" ∷ "drawing"
    ∷ "file_hash_blocklist" ∷ "stored_file" ∷ "subscription" ∷ "user" ∷ "team" ∷ "tier" ∷ []

-- `TIER_SEED_DATA`
abbrev tier : String → String → Cell → Cell → Cell → Row
tier id name monthly_drawing_limit team_features api_access =
    ("id", text id)
    ∷ ("name", text name)
    ∷ ("monthly_drawing_limit", monthly_drawing_limit)
    ∷ ("team_features", team_features)
    ∷ ("api_access", api_access)
    ∷ []

abbrev pub tier_seed_data : List Row
tier_seed_data =
    tier "free" "Free" (number 3) (flag false) (flag false)
    ∷ tier "pro" "Pro" null (flag false) (flag false)
    ∷ tier "team" "Team" null (flag true) (flag false)
    ∷ []

abbrev entity_class : String → String → Cell → String → Row
entity_class id name parent_class color_hex =
    ("id", text id)
    ∷ ("name", text name)
    ∷ ("parent_class", parent_class)
    ∷ ("color_hex", text color_hex)
    ∷ []

abbrev valve : String → String → Row
valve id name = entity_class id name (text "valve") "#d62728"

-- `ENTITY_CLASS_SEED_DATA`
abbrev pub entity_class_seed_data : List Row
entity_class_seed_data =
    entity_class "pipe" "Pipe" null "#1f77b4"
    ∷ valve "valve_gate" "Gate Valve"
    ∷ valve "valve_globe" "Globe Valve"
    ∷ valve "valve_ball" "Ball Valve"
    ∷ valve "valve_butterfly" "Butterfly Valve"
    ∷ valve "valve_check" "Check Valve"
    ∷ valve "valve_control" "Control Valve"
    ∷ entity_class "instrument" "Instrument" null "#2ca02c"
    ∷ []

-- what `upgrade` executes, in order
abbrev pub upgrade : List Statement
upgrade =
    create_statements
    ++ bulk_insert "tier" tier_seed_data ∷ bulk_insert "entity_class" entity_class_seed_data ∷ []

-- what `downgrade` executes
abbrev pub downgrade : List Statement
downgrade = map drop_table drop_tables
