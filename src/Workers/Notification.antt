-- ===== src/Workers/Notification.antt =====
-- The retry policy of the emails (workers/notification/tasks.py). Python's integers, which a header may
-- hold, stand for a type `I`; `int(str(value).strip())` is the parameter `parse_int`.
use pid_docs.Prelude.{
  ℕ, ◌*◌, ◌^◌, ◌≤◌, ◌<◌, zero, suc, String, text_eq, Option, none, some, List, [], ◌∷◌, ◌≡◌, ◌≢◌,
  ◌↔◌, inl, inr, Option-cases, arith, ◌==◌, ◌&&◌, leb, ltb, min, if◌then◌else◌,
}
use pid_docs.Prelude.Text.{lower}

-- `min(60 * 2 ** max(retries_done, 0), 3600)`
unfoldable pub backoff_countdown : ℕ → ℕ
backoff_countdown retries_done = min (60 * 2 ^ retries_done) 3600

-- `SendGridError`: no status for a failure of the transport; its body is only logged
pub record SendGridError : Type 0 where
  pub status_code : Option ℕ
  pub headers : List (String × String)

-- How a task ends: the email is out, it is to be retried, or it has failed for good.
pub data Outcome (I : Type 0) : Type 0 where
  sent permanent_failure : Outcome I
  retry_after : I → Outcome I

module _ {I : Type 0} (of_nat : ℕ → I) (parse_int : String → Option I) where
  pub retry_after_seconds : List (String × String) → I
  retry_after_seconds [] = of_nat 60
  retry_after_seconds ((key, value) ∷ headers) =
      let rest = retry_after_seconds headers in
      if text_eq (lower key) "retry-after"
      then elim (parse_int value) [ some n ↦ n | none ↦ of_nat 60 ]
      else rest

  transient : ℕ → Outcome I
  transient retries = retry_after (of_nat (backoff_countdown retries))

  on_error : SendGridError → ℕ → Outcome I
  unfolding transient retry_after_seconds
  on_error e retries = elim e.status_code [
    | none ↦ transient retries
    | some status ↦
        if status == 429
        then retry_after (retry_after_seconds e.headers)
        else if leb 400 status && ltb status 500
        then permanent_failure
        else transient retries
  ]

  -- `_dispatch`, given what `client.send` raises
  pub dispatch : Option SendGridError → ℕ → Outcome I
  unfolding on_error
  dispatch none retries = sent
  dispatch (some e) retries = on_error e retries

  -- An email that SendGrid refuses is given up for good exactly for a status of 400 to 499 other
  -- than 429.
  pub dispatch_final :
      (e : SendGridError) (retries : ℕ)
      → (dispatch (some e) retries ≡ permanent_failure)
        ↔ ((s : ℕ) × (e.status_code ≡ some s) × (400 ≤ s) × (s < 500) × (s ≢ 429))
  unfolding dispatch
  dispatch_final e retries = elim (Option-cases e.status_code) [
    | inl h ↦ (λ p. absurd (ground arith), λ q. absurd (let (s, a, _, _, _) = q in ground arith))
    | inr (s, h) ↦ (
      λ p. (s, h, ground arith, ground arith, λ u. ground arith),
      λ q. let (x, a, b, c, d) = q in ground arith,
    )
  ]

pow-positive : (r : ℕ) → 1 ≤ 2 ^ r
pow-positive zero = omega arith
pow-positive (suc r) = omega (arith, pow-positive r)

-- The wait before a retry is at least a minute and at most an hour, and never shorter than the one before.
pub backoff_countdown_bounds :
    (r : ℕ)
    → (60 ≤ backoff_countdown r)
      × (backoff_countdown r ≤ 3600)
      × (backoff_countdown r ≤ backoff_countdown (suc r))
unfolding backoff_countdown
backoff_countdown_bounds r = omega (arith, pow-positive r)
