-- ===== src/Routers.antt =====
-- The HTTP handlers of backend/app/api/routers/auth.py: what a request is answered.
pub mod Email
pub mod Auth
pub mod Account
pub mod Table
mod Tests
use pid_docs.Prelude.{ℕ, String}
use pid_docs.AuthService.{AuthResponse, Tokens}

-- The content of an answer: nothing, the fields of a success, `{"error": code, ...}`, or the detail of an
-- `HTTPException`.
pub data Content : Type 0 where
  empty : Content
  auth : AuthResponse → Content
  tokens : Tokens → Content
  error detail : String → Content
  retry : String → ℕ → Content
  link : String → String → Content

pub record Response : Type 0 where
  pub status_code : ℕ
  pub content : Content

abbrev pub json_error : ℕ → String → Response
json_error status_code code = record { status_code = status_code; content = error code }

abbrev pub no_content : Response
no_content = record { status_code = 204; content = empty }
