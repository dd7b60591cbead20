-- ===== src/AuthService/GoTrue/Reset.antt =====
-- What a caller of the GoTrue wrappers can rely on (services/auth_service.py, services/password_reset.py).
use pid_docs.Prelude.{
  ℕ, ◌≤◌, ◌<◌, String, ◌≡◌, ◌≢◌, ◌↔◌, refl, ◌⊎◌, inl, inr, Bool, true, false, not, ◌||◌, ◌==◌,
  Option, none, some, Option-cases, [], ◌∷◌, arith, get_or, leb, ltb, ◌&&◌, Bool-cases,
}
use pid_docs.AuthService.{State, Reply, replied, refused, failed}
use pid_docs.AuthService.PasswordReset as PasswordReset
use pid_docs.AuthService.PasswordReset.Laws.{confirm_reset-users}
use pid_docs.AuthService.GoTrue.{
  Request, Http, Reads, verify_request, update_request, raise_for_gotrue, call, after_verify,
  supabase_reset_password, sign_out_ok,
}

in_range : (n : ℕ) → leb 200 n && ltb n 300 ≡ false → (n < 200) ⊎ (300 ≤ n)
in_range n h = elim (Bool-cases (leb 200 n)) [
  | inl e ↦ inr (ground arith)
  | inr e ↦ inl (ground arith)
]

outside : (n : ℕ) → leb 200 n && ltb n 300 ≡ true → (n < 200) ⊎ (300 ≤ n) → ⊥
outside n h (inl e) = ground arith
outside n h (inr e) = ground arith

no_body :
    (status_code : ℕ) (has_content : Bool)
    → status_code == 204 || not has_content ≡ true
    → (status_code ≡ 204) ⊎ (has_content ≡ false)
no_body status_code false h = inr refl
no_body status_code true h = inl (ground arith)

abbrev is_replied : {A : Type 0} → Reply A → Bool
is_replied (replied a) = true
is_replied (refused status code) = false
is_replied failed = false

module _ {Json : Type 0} (reads : Reads Json) (http : Request → Option (Http Json)) where
  success_refused :
      (r : Http Json)
      → leb 200 r.status_code && ltb r.status_code 300 ≡ true
      → raise_for_gotrue reads http r ≡ refused (some r.status_code) r.code
      → ⊥
  unfolding raise_for_gotrue
  success_refused r h e = ground arith

  -- A reply is an error with its status exactly if the status is outside 200 to 299; the JSON of a success is
  -- read only if there is some.
  pub raise_for_gotrue_refused :
      (r : Http Json)
      → ((raise_for_gotrue reads http r ≡ refused (some r.status_code) r.code)
          ↔ ((r.status_code < 200) ⊎ (300 ≤ r.status_code)))
  unfolding raise_for_gotrue
  raise_for_gotrue_refused r = elim (Bool-cases (leb 200 r.status_code && ltb r.status_code 300)) [
    | inr out_of_range ↦ (λ h. in_range r.status_code out_of_range, λ h. ground arith)
    | inl within ↦
        (λ h. absurd (success_refused r within h), λ h. absurd (outside r.status_code within h))
  ]

  -- The verification was answered with a success, from which `verified` was read: the empty dict where there was
  -- nothing to read, and else the JSON.
  abbrev pub Verifies : Option (Http Json) → Json → Type 0
  Verifies answer verified =
      (r : Http Json) × (answer ≡ some r)
      × (200 ≤ r.status_code)
      × (r.status_code < 300)
      × ((((r.status_code ≡ 204) ⊎ (r.has_content ≡ false)) × (verified ≡ reads.nothing))
          ⊎ (r.json ≡ some verified))

  -- It was not answered, or with an error, or with what is no JSON.
  abbrev pub IsUnverified : Option (Http Json) → Type 0
  IsUnverified answer =
      (answer ≡ none)
      ⊎ ((r : Http Json) × (answer ≡ some r)
          × ((r.status_code < 200) ⊎ ((300 ≤ r.status_code) ⊎ (r.json ≡ none))))

  call_within :
      (request : Request) (r : Http Json)
      → http request ≡ some r
      → leb 200 r.status_code && ltb r.status_code 300 ≡ true
      → ((verified : Json) × (call reads http request ≡ replied verified)
          × Verifies (http request) verified)
        ⊎ ((call reads http request ≡ failed) × IsUnverified (http request))
  unfolding call raise_for_gotrue
  call_within request r e within = elim (Bool-cases (r.status_code == 204 || not r.has_content)) [
    | inl empty ↦ inl (
      reads.nothing,
      ground arith,
      (r, e, ground arith, ground arith, inl (no_body r.status_code r.has_content empty, refl)),
    )
    | inr full ↦ elim (Option-cases r.json) [
      | inl none_read ↦ inr (ground arith, inr (r, e, inr (inr none_read)))
      | inr (body, read) ↦ inl (body, ground arith, (r, e, ground arith, ground arith, inr read))
    ]
  ]

  call-cases :
      (request : Request)
      → ((verified : Json) × (call reads http request ≡ replied verified)
          × Verifies (http request) verified)
        ⊎ ((is_replied (call reads http request) ≡ false) × IsUnverified (http request))
  unfolding call raise_for_gotrue
  call-cases request = elim (Option-cases (http request)) [
    | inl e ↦ inr (ground arith, inl e)
    | inr (r, e) ↦ elim (Bool-cases (leb 200 r.status_code && ltb r.status_code 300)) [
      | inl within ↦ elim (call_within request r e within) [
        | inl found ↦ inl found
        | inr (failing, why) ↦ inr (rw failing refl, why)
      ]
      | inr out_of_range ↦ inr (
        ground arith,
        inr (
          r,
          e,
          elim (in_range r.status_code out_of_range) [
            | inl low ↦ inl low
            | inr high ↦ inr (inl high)
          ],
        ),
      )
    ]
  ]

  after_verify_unreplied :
      (verify : Request) (new_password : String) (x : Reply Json)
      → is_replied x ≡ false
      → (after_verify reads http verify new_password x).1 ≡ verify ∷ []
  unfolding after_verify
  after_verify_unreplied verify new_password (replied v) h = absurd (ground arith)
  after_verify_unreplied verify new_password (refused status code) h = refl
  after_verify_unreplied verify new_password failed h = refl

  -- A new password is sent exactly once, with the access token of the verification, if the verification of the
  -- recovery token is answered with a status from 200 to 299 and what can be read; if it is not answered, or with
  -- another status, or with what is no JSON, the verification is the only request.
  pub supabase_reset_password-requests :
      (token new_password : String)
      → let requests = (supabase_reset_password reads http token new_password).1 in
        ((verified : Json) × Verifies (http (verify_request token)) verified
          × (requests
              ≡ verify_request token
                ∷ update_request (get_or (reads.access_token verified) "") new_password
                ∷ []))
        ⊎ (IsUnverified (http (verify_request token)) × (requests ≡ verify_request token ∷ []))
  unfolding supabase_reset_password after_verify
  supabase_reset_password-requests token new_password = elim (call-cases (verify_request token)) [
    | inl (verified, e, why) ↦ inl (verified, why, rw e refl)
    | inr (e, why) ↦ inr (
      why,
      after_verify_unreplied (verify_request token) new_password
          (call reads http (verify_request token)) e,
    )
  ]

-- Unless the Admin API answers the revocation with 200 or 204, a confirmed reset changes no user.
pub confirm_reset-sign_out_ok :
    {Store Json : Type 0} (parse_uuid : String → Option ℕ) (str : ℕ → String)
    (out : PasswordReset.Outside) (s : State Store) (r : Http Json)
    → out.signs_out ≡ sign_out_ok (some r)
    → r.status_code ≢ 200
    → r.status_code ≢ 204
    → (PasswordReset.confirm_reset parse_uuid str out s).1.world.users ≡ s.world.users
unfolding sign_out_ok
confirm_reset-sign_out_ok parse_uuid str out s r e a b =
    confirm_reset-users parse_uuid str out s (ground arith)
