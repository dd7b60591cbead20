-- ===== src/AuthService/Session.antt =====
-- `AuthService.refresh` and `AuthService.logout` (services/auth_service.py).
use pid_docs.Prelude.{ℕ, Bool, ◌≡◌, refl, some, [], ◌∷◌, ◌++◌, arith}
use pid_docs.Prelude.Exec.{Result, ok, err}
use pid_docs.AuthService.{
  AuthError, invalid_refresh_token, network_error, refresh_session, sign_out, Reply, replied,
  refused, failed, Body, Tokens, session_tokens, State, Flow, called, write_audit,
}

refreshed : Reply Body → Result AuthError Tokens
refreshed (replied body) = ok (session_tokens body)
refreshed (refused status code) = err invalid_refresh_token
refreshed failed = err network_error

module _ {Store : Type 0} where
  unfoldable pub refresh : Reply Body → Flow Store Tokens
  unfolding refreshed
  refresh reply s = (refreshed reply, called refresh_session s)

  -- Whatever Supabase answers, it is swallowed.
  unfoldable pub logout : Reply (Unit {0}) → Bool → ℕ → ℕ → ℕ → Flow Store Unit
  logout reply audits audit_id now user_id s =
      (ok tt, write_audit audits audit_id now "logout" (some user_id) (called sign_out s))

  -- A logout always succeeds, has asked Supabase to revoke the session exactly once, and changes no
  -- user, no counter and no queue; a refresh makes one call and changes nothing else.
  pub logout_ok :
      (reply : Reply (Unit {0})) (body : Reply Body) (audits : Bool) (audit_id now uid : ℕ)
      (s : State Store)
      → let (res, s') = logout reply audits audit_id now uid s in
        (res ≡ ok tt)
        × (s'.calls ≡ s.calls ++ sign_out ∷ [])
        × (s'.world.users ≡ s.world.users)
        × (s'.world.sent ≡ s.world.sent)
        × (s'.counters ≡ s.counters)
        × ((refresh body s).1 ≡ called refresh_session s)
  unfolding logout refresh write_audit
  logout_ok reply body audits audit_id now uid s = ground arith

  -- Neither a logout nor a refresh changes a user.
  pub logout-users :
      (reply : Reply (Unit {0})) (audits : Bool) (audit_id now uid : ℕ) (s : State Store)
      → (logout reply audits audit_id now uid s).1.world.users ≡ s.world.users
  unfolding logout write_audit
  logout-users reply audits audit_id now uid s = ground arith

  pub refresh-users :
      (body : Reply Body) (s : State Store) → (refresh body s).1.world.users ≡ s.world.users
  unfolding refresh
  refresh-users body s = refl
