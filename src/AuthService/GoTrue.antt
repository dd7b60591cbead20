-- ===== src/AuthService/GoTrue.antt =====
-- The calls of GoTrue's REST API (services/auth_service.py, auth/supabase_client.py). HTTP is a parameter: what
-- a request brings, or none where httpx raises. A JSON value is of a parameter type, with the reads that the
-- code makes of it.
pub mod Reset
use Prim.Native.String as Text
use pid_docs.Prelude.{
  not, ℕ, String, Bool, true, false, ◌&&◌, ◌||◌, Option, none, some, List, [], ◌∷◌, ◌==◌, leb, ltb,
  if◌then◌else◌, is_some, get_or,
}
use pid_docs.AuthService.{Reply, replied, refused, failed}

pub record Request : Type 0 where
  pub method : String
  pub path : String
  pub query : List (String × String)
  pub bearer : Option String
  pub json : List (String × String)

-- `code` is the first true value of `error_code`, `code` and `error` in the JSON, if it has one.
pub record Http (Json : Type 0) : Type 0 where
  pub status_code : ℕ
  pub has_content : Bool
  pub json : Option Json
  pub code : Option String

abbrev pub post : String → List (String × String) → Request
post path json = record { method = "POST"; path = path; query = []; bearer = none; json = json }

pub sign_up_request : String → String → Request
sign_up_request email password =
    post "/auth/v1/signup" (("email", email) ∷ ("password", password) ∷ [])

pub sign_in_request : String → String → Request
sign_in_request email password =
    record (post "/auth/v1/token" (("email", email) ∷ ("password", password) ∷ [])) {
      query = ("grant_type", "password") ∷ [];
    }

pub refresh_request : String → Request
refresh_request refresh_token =
    record (post "/auth/v1/token" (("refresh_token", refresh_token) ∷ [])) {
      query = ("grant_type", "refresh_token") ∷ [];
    }

pub sign_out_request : String → Request
sign_out_request access_token = record (post "/auth/v1/logout" []) { bearer = some access_token }

pub link_request : String → String → Request
link_request link_type email =
    post "/auth/v1/admin/generate_link" (("type", link_type) ∷ ("email", email) ∷ [])

pub verify_request : String → Request
verify_request token = post "/auth/v1/verify" (("type", "recovery") ∷ ("token", token) ∷ [])

pub update_request : String → String → Request
update_request access_token new_password = record {
  method = "PUT";
  path = "/auth/v1/user";
  query = [];
  bearer = some access_token;
  json = ("password", new_password) ∷ [];
}

-- The reads of a JSON value: the empty dict, the text under `action_link` and under `access_token`, if they are
-- there, the value under `user`, and `{"user": value}`.
pub record Reads (Json : Type 0) : Type 0 where
  pub nothing : Json
  pub action_link : Json → Option String
  pub access_token : Json → Option String
  pub user : Json → Option Json
  pub of_user : Json → Json

module _ {Json : Type 0} (reads : Reads Json) (http : Request → Option (Http Json)) where
  open reads use {nothing, action_link, access_token, user, of_user}

  pub raise_for_gotrue : Http Json → Reply Json
  raise_for_gotrue r =
      if leb 200 r.status_code && ltb r.status_code 300
      then if r.status_code == 204 || not r.has_content
        then replied nothing
        else elim r.json [ some body ↦ replied body | none ↦ failed ]
      else refused (some r.status_code) r.code

  pub call : Request → Reply Json
  unfolding raise_for_gotrue
  call request = elim (http request) [ none ↦ failed | some r ↦ raise_for_gotrue r ]

  pub supabase_sign_up : String → String → Reply Json
  unfolding sign_up_request call
  supabase_sign_up email password = call (sign_up_request email password)

  pub supabase_sign_in_password : String → String → Reply Json
  unfolding sign_in_request call
  supabase_sign_in_password email password = call (sign_in_request email password)

  pub supabase_refresh_session : String → Reply Json
  unfolding refresh_request call
  supabase_refresh_session refresh_token = call (refresh_request refresh_token)

  -- the part of a reply that is read
  abbrev pub on_reply : {A B : Type 0} → (A → B) → Reply A → Reply B
  on_reply f (replied a) = replied (f a)
  on_reply f (refused status code) = refused status code
  on_reply f failed = failed

  pub supabase_sign_out : String → Reply (Unit {0})
  unfolding sign_out_request call
  supabase_sign_out access_token = on_reply (λ _. tt) (call (sign_out_request access_token))

  pub supabase_generate_link : String → String → Reply String
  unfolding link_request call
  supabase_generate_link link_type email =
      on_reply (λ body. get_or (action_link body) "") (call (link_request link_type email))

  -- the user of a reset, wherever it stands
  found_user : Json → Json → Json
  found_user verified updated =
      if is_some (user updated)
      then updated
      else elim (user verified) [ some u ↦ of_user u | none ↦ of_user updated ]

  -- with the requests that were made
  after_verify : Request → String → Reply Json → Reply Json × List Request
  unfolding found_user
  after_verify verify new_password failed = (failed, verify ∷ [])
  after_verify verify new_password (refused status code) = (refused status code, verify ∷ [])
  after_verify verify new_password (replied verified) =
      let update = update_request (get_or (access_token verified) "") new_password in
      (on_reply (found_user verified) (call update), verify ∷ update ∷ [])

  pub supabase_reset_password : String → String → Reply Json × List Request
  unfolding verify_request call after_verify
  supabase_reset_password token new_password =
      after_verify (verify_request token) new_password (call (verify_request token))

-- `admin_sign_out`: does it return normally?
unfoldable pub sign_out_ok : {Json : Type 0} → Option (Http Json) → Bool
sign_out_ok none = false
sign_out_ok (some r) = r.status_code == 200 || r.status_code == 204
