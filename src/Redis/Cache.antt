-- ===== src/Redis/Cache.antt =====
-- The cached subscription flags and the taxonomy (redis/cache.py). `json` stands for Python's: its dicts are of a
-- parameter type. A read that Redis does not answer in time is a miss: `answers`.
pub mod Freshness
use Prim.Native.String as Text
use pid_docs.Prelude.{ℕ, ◌+◌, String, Bool, true, false, Option, none, some, if◌then◌else◌}
use pid_docs.Redis.Values.{Values}

abbrev pub subscription_flags_ttl_seconds : ℕ
subscription_flags_ttl_seconds = 300

abbrev pub entity_taxonomy_key : String
entity_taxonomy_key = "entity_classes:taxonomy"

pub subscription_flags_key : String → String
subscription_flags_key user_id = Text.◌++◌ "subscription:flags:" user_id

-- `json.dumps`, and `json.loads` with the value if it is a dict; none if it is none or the text is no JSON
pub record Json : Type 1 where
  pub Dict : Type 0
  pub dumps : Dict → String
  pub loads_dict : String → Option Dict

module _ (values : Values) (json : Json) where
  open values use {Store, get, set, delete}
  open json use {Dict, dumps, loads_dict}

  pub parse_json_dict : Option String → Option Dict
  parse_json_dict none = none
  parse_json_dict (some raw) = loads_dict raw

  pub read_raw : Bool → ℕ → String → Store → Option String
  read_raw answers now key s = if answers then get s now key else none

  pub set_subscription_flags : ℕ → String → Dict → Store → Store
  unfolding subscription_flags_key
  set_subscription_flags now user_id flags =
      set (subscription_flags_key user_id) (dumps flags)
        (some (now + subscription_flags_ttl_seconds))

  pub get_subscription_flags : Bool → ℕ → String → Store → Option Dict
  unfolding parse_json_dict read_raw
  get_subscription_flags answers now user_id s =
      parse_json_dict (read_raw answers now (subscription_flags_key user_id) s)

  pub invalidate_subscription_flags : String → Store → Store
  invalidate_subscription_flags user_id = delete (subscription_flags_key user_id)

  pub set_entity_taxonomy : Dict → Store → Store
  set_entity_taxonomy payload = set entity_taxonomy_key (dumps payload) none

  pub get_entity_taxonomy : Bool → ℕ → Store → Option Dict
  unfolding parse_json_dict read_raw
  get_entity_taxonomy answers now s = parse_json_dict (read_raw answers now entity_taxonomy_key s)

  pub invalidate_entity_taxonomy : Store → Store
  invalidate_entity_taxonomy = delete entity_taxonomy_key
