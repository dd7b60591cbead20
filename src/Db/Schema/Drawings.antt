-- ===== src/Db/Schema/Drawings.antt =====
-- The tables of drawings, their files, symbols and corrections (alembic/versions/0001_initial_schema.py).
use pid_docs.Prelude.{[], ◌∷◌}
use pid_docs.Db.Schema.{
  varchar, uuid, integer, bigint, boolean, timestamptz, jsonb, float, one_of, unit_interval,
  exactly_one, Table,
}
use pid_docs.Db.Schema.Columns.{column, required, or_else, referring, cascading}

abbrev pub stored_file_table : Table
stored_file_table = record {
  name = "stored_file";
  columns =
      or_else "gen_random_uuid()" (required (column "id" uuid))
      ∷ required (column "bucket" varchar)
      ∷ required (column "object_key" varchar)
      ∷ required (column "sha256_hash" varchar)
      ∷ required (column "file_type" varchar)
      ∷ required (column "size_bytes" bigint)
      ∷ [];
  primary_key = "id";
  unique = ("stored_file_object_key_unique", "bucket" ∷ "object_key" ∷ []) ∷ [];
  checks = [];
}

abbrev pub file_hash_blocklist_table : Table
file_hash_blocklist_table = record {
  name = "file_hash_blocklist";
  columns =
      required (column "sha256_hash" varchar)
      ∷ or_else "NOW()" (required (column "blocked_at" timestamptz))
      ∷ required (column "reason" varchar)
      ∷ [];
  primary_key = "sha256_hash";
  unique = [];
  checks = [];
}

abbrev pub drawing_table : Table
drawing_table = record {
  name = "drawing";
  columns =
      or_else "gen_random_uuid()" (required (column "id" uuid))
      ∷ referring "user" (column "owner_user_id" uuid)
      ∷ referring "team" (column "owner_team_id" uuid)
      ∷ required (column "filename" varchar)
      ∷ column "revision_label" varchar
      ∷ required (column "processing_state" varchar)
      ∷ column "page_count" integer
      ∷ column "estimated_symbol_count" integer
      ∷ or_else "NOW()" (required (column "uploaded_at" timestamptz))
      ∷ column "processed_at" timestamptz
      ∷ referring "stored_file" (column "stored_file_id" uuid)
      ∷ [];
  primary_key = "id";
  unique = [];
  checks =
      one_of "processing_state" (
        "Pending" ∷ "Queued" ∷ "Scanning" ∷ "Processing" ∷ "Complete" ∷ "Under_Review" ∷ "Failed"
        ∷ "Scan_Failed" ∷ [])
      ∷ exactly_one "owner_user_id" "owner_team_id"
      ∷ [];
}

abbrev pub entity_class_table : Table
entity_class_table = record {
  name = "entity_class";
  columns =
      required (column "id" varchar)
      ∷ required (column "name" varchar)
      ∷ column "parent_class" varchar
      ∷ required (column "color_hex" varchar)
      ∷ [];
  primary_key = "id";
  unique = [];
  checks = [];
}

abbrev pub detected_symbol_table : Table
detected_symbol_table = record {
  name = "detected_symbol";
  columns =
      or_else "gen_random_uuid()" (required (column "id" uuid))
      ∷ cascading "drawing" (required (column "drawing_id" uuid))
      ∷ referring "entity_class" (required (column "entity_class_id" varchar))
      ∷ column "subtype" varchar
      ∷ column "tag_label" varchar
      ∷ required (column "confidence" float)
      ∷ required (column "bbox" jsonb)
      ∷ required (column "source" varchar)
      ∷ or_else "FALSE" (required (column "rejected" boolean))
      ∷ required (column "page_number" integer)
      ∷ [];
  primary_key = "id";
  unique = [];
  checks = unit_interval "confidence" ∷ one_of "source" ("ml" ∷ "manual" ∷ []) ∷ [];
}

abbrev pub table_cell_table : Table
table_cell_table = record {
  name = "table_cell";
  columns =
      or_else "gen_random_uuid()" (required (column "id" uuid))
      ∷ cascading "drawing" (required (column "drawing_id" uuid))
      ∷ required (column "page_number" integer)
      ∷ required (column "row_label" varchar)
      ∷ required (column "column_label" varchar)
      ∷ required (column "bbox" jsonb)
      ∷ column "extracted_value" varchar
      ∷ column "corrected_value" varchar
      ∷ column "correction_training_consent" boolean
      ∷ column "corrected_at" timestamptz
      ∷ referring "user" (column "corrected_by_user_id" uuid)
      ∷ [];
  primary_key = "id";
  unique = [];
  checks = [];
}

abbrev pub user_correction_table : Table
user_correction_table = record {
  name = "user_correction";
  columns =
      or_else "gen_random_uuid()" (required (column "id" uuid))
      ∷ referring "detected_symbol" (column "detected_symbol_id" uuid)
      ∷ referring "table_cell" (column "table_cell_id" uuid)
      ∷ referring "user" (required (column "user_id" uuid))
      ∷ required (column "correction_type" varchar)
      ∷ referring "entity_class" (column "new_class_id" varchar)
      ∷ required (column "training_consent" boolean)
      ∷ or_else "NOW()" (required (column "created_at" timestamptz))
      ∷ [];
  primary_key = "id";
  unique = [];
  checks =
      one_of "correction_type" ("reclassify" ∷ "reject" ∷ "restore" ∷ "manual_add" ∷ [])
      ∷ exactly_one "detected_symbol_id" "table_cell_id"
      ∷ [];
}

abbrev pub export_record_table : Table
export_record_table = record {
  name = "export_record";
  columns =
      or_else "gen_random_uuid()" (required (column "id" uuid))
      ∷ referring "drawing" (required (column "drawing_id" uuid))
      ∷ referring "user" (required (column "user_id" uuid))
      ∷ required (column "format" varchar)
      ∷ required (column "status" varchar)
      ∷ referring "stored_file" (column "stored_file_id" uuid)
      ∷ or_else "NOW()" (required (column "initiated_at" timestamptz))
      ∷ column "completed_at" timestamptz
      ∷ [];
  primary_key = "id";
  unique = [];
  checks =
      one_of "format" ("csv" ∷ "xlsx" ∷ [])
      ∷ one_of "status" ("Queued" ∷ "Generating" ∷ "Complete" ∷ "Failed" ∷ [])
      ∷ [];
}

abbrev pub revision_comparison_table : Table
revision_comparison_table = record {
  name = "revision_comparison";
  columns =
      or_else "gen_random_uuid()" (required (column "id" uuid))
      ∷ referring "drawing" (required (column "drawing_a_id" uuid))
      ∷ referring "drawing" (required (column "drawing_b_id" uuid))
      ∷ column "match_result" jsonb
      ∷ column "computed_at" timestamptz
      ∷ column "last_correction_at" timestamptz
      ∷ [];
  primary_key = "id";
  unique = [];
  checks = [];
}
