-- ===== src/AuthService/Admin.antt =====
-- The client of the admin API of Supabase (auth/supabase_client.py). httpx is a parameter: what a request brings, or
-- none where it raises. `users` reads the list under "users" in a JSON value, and the JSON of an answer is none where reading it as a dict raises.
use Prim.Native.String as Text
use Prim.Native.Char.{code}
use pid_docs.Prelude.{
  ℕ, String, true, ◌||◌, ◌==◌, Option, none, some, List, [], ◌∷◌, ◌≡◌, ◌↔◌, ◌⊎◌, refl, arith,
  if◌then◌else◌, Option-cases, inl, inr,
}
use pid_docs.Prelude.Text.{rstrip_where}
use pid_docs.Prelude.Exec.{Result, ok, err}
use pid_docs.AuthService.GoTrue.{Http, sign_out_ok}

pub record Request : Type 0 where
  pub method : String
  pub url : String
  pub params : List (String × String)
  pub headers : List (String × String)
  pub timeout_seconds : ℕ

pub data Failure : Type 0 where
  http_error json_error : Failure
  supabase_admin_error : ℕ → Failure

abbrev timeout_seconds : ℕ
timeout_seconds = 10

module _ (supabase_url service_role_key : String) where
  abbrev pub admin_headers : List (String × String)
  admin_headers =
      ("Authorization", Text.◌++◌ "Bearer " service_role_key)
      ∷ ("apikey", service_role_key)
      ∷ ("Content-Type", "application/json")
      ∷ []

  -- A request of the client that `_build_client` makes.
  abbrev pub client_request : String → String → List (String × String) → Request
  client_request method path params = record {
    method = method;
    url = Text.◌++◌ (rstrip_where (λ c. code c == 47) supabase_url) path;
    params = params;
    headers = admin_headers;
    timeout_seconds = timeout_seconds;
  }

  module _ {Json : Type 0} (users : Json → List Json) (str : ℕ → String)
      (http : Request → Option (Http Json)) where
    abbrev pub logout_request : ℕ → Request
    logout_request user_id =
        client_request "POST"
          (Text.◌++◌ "/auth/v1/admin/users/" (Text.◌++◌ (str user_id) "/logout")) []

    unfoldable pub admin_sign_out : ℕ → Result Failure (Unit {0})
    admin_sign_out user_id = elim (http (logout_request user_id)) [
      | none ↦ err http_error
      | some r ↦
          if r.status_code == 200 || r.status_code == 204
          then ok tt
          else err (supabase_admin_error r.status_code)
    ]

    abbrev pub lookup_request : String → Request
    lookup_request email = client_request "GET" "/auth/v1/admin/users" (("email", email) ∷ [])

    abbrev first : List Json → Option Json
    first [] = none
    first (u ∷ us) = some u

    unfoldable pub find_user_by_email : String → Result Failure (Option Json)
    find_user_by_email email = elim (http (lookup_request email)) [
      | none ↦ err http_error
      | some r ↦
          if r.status_code == 200
          then elim r.json [ none ↦ err json_error | some body ↦ ok (first (users body)) ]
          else err (supabase_admin_error r.status_code)
    ]

    -- The sign-out returns normally exactly if the answer to its one request is 200 or 204.
    pub admin_sign_out-sign_out_ok :
        (user_id : ℕ)
        → (admin_sign_out user_id ≡ ok tt) ↔ (sign_out_ok (http (logout_request user_id)) ≡ true)
    unfolding admin_sign_out sign_out_ok
    admin_sign_out-sign_out_ok user_id = elim (Option-cases (http (logout_request user_id))) [
      | inl e ↦ ground arith
      | inr (r, e) ↦ ground arith
    ]

    List-cases : (l : List Json) → (l ≡ []) ⊎ ((v : Json) × (us : List Json) × (l ≡ v ∷ us))
    List-cases [] = inl refl
    List-cases (v ∷ us) = inr (v, us, refl)

    -- A user is found exactly if the answer is a 200 whose list begins with him, however long the list is.
    pub find_user_by_email_lem :
        (email : String) (u : Json)
        → (find_user_by_email email ≡ ok (some u)) ↔ (
            (r : Http Json) × (body : Json) × (us : List Json) × (http (lookup_request email)
              ≡ some r)
            × (r.status_code ≡ 200)
            × (r.json ≡ some body)
            × (users body ≡ u ∷ us))
    unfolding find_user_by_email
    find_user_by_email_lem email u = elim (Option-cases (http (lookup_request email))) [
      | inl e ↦ ground arith
      | inr (r, e) ↦ elim (Option-cases r.json) [
        | inl f ↦ ground arith
        | inr (body, f) ↦ elim (List-cases (users body)) [
          | inl g ↦ ground arith
          | inr (v, us, g) ↦ ground arith
        ]
      ]
    ]
