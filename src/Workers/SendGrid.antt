-- ===== src/Workers/SendGrid.antt =====
-- SendGridClient.send (workers/notification/sendgrid_client.py): what the SDK does with one message, and what
-- the wrapper makes of it. The attribute `body` of an error is only logged, and left out.
use pid_docs.Prelude.{ℕ, String, Option, none, some, List, [], leb, if◌then◌else◌}
use pid_docs.Prelude.Exec.{Result, ok, err}
use pid_docs.Workers.Notification.{SendGridError}

-- `HTTPError.headers`: nothing, a dict, an object with `items()` (none if that raises), anything else
pub data Headers : Type 0 where
  absent other : Headers
  plain : List (String × String) → Headers
  items : Option (List (String × String)) → Headers

pub coerce_headers : Headers → List (String × String)
coerce_headers absent = []
coerce_headers (plain d) = d
coerce_headers (items (some d)) = d
coerce_headers (items none) = []
coerce_headers other = []

-- What `SendGridAPIClient.send` does: it returns a response, whose status may be missing, or raises an
-- `HTTPError`, or anything else.
pub data Sdk : Type 0 where
  response http_error : Option ℕ → Headers → Sdk
  exception : Sdk

-- a response with an error status
checked : Option ℕ → Headers → Result SendGridError Unit
unfolding coerce_headers
checked none headers = ok tt
checked (some status) headers =
    if leb 300 status
    then err (record { status_code = some status; headers = coerce_headers headers })
    else ok tt

unfoldable pub send : Sdk → Result SendGridError Unit
unfolding checked
send (response status headers) = checked status headers
send (http_error status headers) =
    err (record { status_code = status; headers = coerce_headers headers })
send exception = err (record { status_code = none; headers = [] })

-- the error that a `SendGridError` handler sees
abbrev pub raised : Sdk → Option SendGridError
raised x = elim (send x) [ ok _ ↦ none | err e ↦ some e ]
