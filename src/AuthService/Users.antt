-- ===== src/AuthService/Users.antt =====
-- `_active_user_by_email` and the insertion of a user with a subscription, under the constraints of
-- the table: `user_email_unique` ranges over the soft-deleted rows too.
pub mod Unique
use pid_docs.Prelude.{
  ℕ, String, text_eq, Bool, true, false, not, ◌&&◌, ◌||◌, Option, none, some, List, [], ◌∷◌, ◌++◌,
  ◌==◌, is_some, filter, if◌then◌else◌,
}
use pid_docs.Prelude.Exec.{Result, ok, err}
use pid_docs.Db.{User, Subscription}
use pid_docs.Account.{World}
use pid_docs.AuthService.{AuthError, multiple_results, integrity_error, database_error, State, Flow}

unfoldable pub is_active : String → User → Bool
is_active email u = text_eq u.email email && not (is_some u.deleted_at)

-- `scalar_one_or_none`
abbrev pub one_or_none : List User → Result AuthError (Option User)
one_or_none [] = ok none
one_or_none (u ∷ []) = ok (some u)
one_or_none (u ∷ v ∷ us) = err multiple_results

unfoldable pub find_active : String → List User → Result AuthError (Option User)
unfolding is_active
find_active email us = one_or_none (filter (is_active email) us)

-- Is the id or the address held by a row, deleted or not?
unfoldable pub clashes : User → List User → Bool
clashes new [] = false
clashes new (u ∷ us) = (u.id == new.id || text_eq u.email new.email) || clashes new us

module _ {Store : Type 0} where
  unfoldable pub active_user_by_email : String → Flow Store (Option User)
  unfolding find_active
  active_user_by_email email s = (find_active email s.world.users, s)

  -- `db.add(user); db.add(subscription); db.commit()`, with the rollback
  unfoldable pub insert_user : Bool → ℕ → User → Flow Store Unit
  unfolding clashes
  insert_user commits subscription_id user s =
      if clashes user s.world.users
      then (err integrity_error, s)
      else if commits
      then (
        ok tt,
        record s {
          world = record s.world {
            users = s.world.users ++ user ∷ [];
            subscriptions =
                s.world.subscriptions
                ++ record {
                  id = subscription_id;
                  user_id = some user.id;
                  team_id = none;
                  tier_id = "free";
                  billing_state = "Active";
                }
                  ∷ [];
          };
        },
      )
      else (err database_error, s)
