-- ===== src/Redis/Cache/Freshness.antt =====
-- How long the cached values are served (redis/cache.py).
use pid_docs.Prelude.{
  ℕ, ◌+◌, String, eq_iff, eq_refl, ◌≡◌, ◌≢◌, Bool, none, some, arith, ltb, if◌then◌else◌,
}
use text.Mathlib.TextLemmas.{append_cancel_left}
use pid_docs.Redis.Values.{Values}
use pid_docs.Redis.Cache.{
  Json, subscription_flags_key, set_subscription_flags, get_subscription_flags,
  invalidate_subscription_flags, set_entity_taxonomy, get_entity_taxonomy,
  invalidate_entity_taxonomy,
}

subscription_flags_key-ne :
    (u v : String) → u ≢ v → subscription_flags_key u ≢ subscription_flags_key v
unfolding subscription_flags_key
subscription_flags_key-ne u v ne e = ne (append_cancel_left "subscription:flags:" u v e)

module _ (values : Values) (json : Json)
    (back : (d : json.Dict) → json.loads_dict (json.dumps d) ≡ some d) (now : ℕ) (user_id : String)
    (flags : json.Dict) (s : values.Store) where
  -- For JSON that reads back what it wrote: flags that were cached are served unchanged for 300 seconds and
  -- not from then on, while Redis answers; without an answer they are a miss.
  pub get-set_subscription_flags :
      (answers : Bool) (later : ℕ)
      → get_subscription_flags values json answers later user_id
          (set_subscription_flags values json now user_id flags s)
        ≡ (if answers then if ltb later (now + 300) then some flags else none else none)
  unfolding get_subscription_flags set_subscription_flags
  get-set_subscription_flags answers later =
      let k = subscription_flags_key user_id in
      ground (
        arith,
        values.get-set s later k k (json.dumps flags) (some (now + 300)),
        eq_refl k,
        back flags,
      )

  -- A value that was invalidated is a miss, at any time; the taxonomy, for JSON that reads back what it
  -- wrote, is served unchanged at any later time while Redis answers.
  pub get-invalidate :
      (answers : Bool) (later : ℕ)
      → (get_subscription_flags values json answers later user_id
            (invalidate_subscription_flags values json user_id s)
          ≡ none)
        × (get_entity_taxonomy values json answers later (invalidate_entity_taxonomy values json s)
            ≡ none)
        × (get_entity_taxonomy values json answers later (set_entity_taxonomy values json flags s)
            ≡ (if answers then some flags else none))
  unfolding get_subscription_flags invalidate_subscription_flags set_entity_taxonomy
      get_entity_taxonomy invalidate_entity_taxonomy
  get-invalidate answers later =
      let k = subscription_flags_key user_id in
      ground (
        arith,
        values.get-delete s later k k,
        eq_refl k,
        values.get-delete s later "entity_classes:taxonomy" "entity_classes:taxonomy",
        values.get-set s later "entity_classes:taxonomy" "entity_classes:taxonomy"
            (json.dumps flags) none,
        back flags,
      )

  -- The flags of one user are served for no other, and invalidated for no other.
  pub get_subscription_flags-others :
      (answers : Bool) (later : ℕ) (other : String)
      → user_id ≢ other
      → (get_subscription_flags values json answers later other
            (set_subscription_flags values json now user_id flags s)
          ≡ get_subscription_flags values json answers later other s)
        × (get_subscription_flags values json answers later other
              (invalidate_subscription_flags values json user_id s)
            ≡ get_subscription_flags values json answers later other s)
  unfolding get_subscription_flags set_subscription_flags invalidate_subscription_flags
  get_subscription_flags-others answers later other ne =
      let k = subscription_flags_key user_id in
      let j = subscription_flags_key other in
      let apart : k ≢ j = subscription_flags_key-ne user_id other ne in
      ground (
        arith,
        values.get-set s later k j (json.dumps flags) (some (now + 300)),
        values.get-delete s later k j,
        eq_iff k j,
      )
