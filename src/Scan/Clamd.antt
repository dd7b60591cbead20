-- ===== src/Scan/Clamd.antt =====
-- Where the scan worker finds clamd, and its ping (workers/scan/clamav_client.py). pyclamd and Python's `int` are
-- parameters.
use pid_docs.Prelude.{
  ℕ, String, Bool, false, Option, none, some, ◌≡◌, ◌⊎◌, inl, inr, refl, arith, if◌then◌else◌,
  get_or, Option-cases, Bool-cases,
}
use pid_docs.Prelude.Text.{is_empty}
use pid_docs.Prelude.Exec.{Result, ok, err}

abbrev pub default_clamav_host : String
default_clamav_host = "clamav"

abbrev pub default_clamav_port : ℕ
default_clamav_port = 3310

-- `os.environ.get("CLAMAV_HOST") or DEFAULT_CLAMAV_HOST`
env_host : Option String → String
env_host none = default_clamav_host
env_host (some host) = if is_empty host then default_clamav_host else host

env_host_given : (v : Option String) → is_empty (env_host v) ≡ false
unfolding env_host
env_host_given none = refl
env_host_given (some host) = elim (Bool-cases (is_empty host)) [
  | inl e ↦ rw e refl
  | inr e ↦ rw e e
]

-- `parse_int` is none where `int` raises a `ValueError`.
module _ {Int : Type 0} (int : ℕ → Int) (parse_int : String → Option Int) where
  env_port : Option String → Int
  env_port none = int default_clamav_port
  env_port (some raw) =
      if is_empty raw
      then int default_clamav_port
      else get_or (parse_int raw) (int default_clamav_port)

  env_port_read :
      (v : Option String)
      → (env_port v ≡ int default_clamav_port)
        ⊎ ((raw : String) × (v ≡ some raw) × (parse_int raw ≡ some (env_port v)))
  unfolding env_port
  env_port_read none = inl refl
  env_port_read (some raw) = elim (Bool-cases (is_empty raw)) [
    | inl e ↦ inl (ground arith)
    | inr e ↦ elim (Option-cases (parse_int raw)) [
      | inl n ↦ inl (ground arith)
      | inr (port, n) ↦ inr (raw, refl, ground arith)
    ]
  ]

  pub record ClamAvClient : Type 0 where
    pub host : String
    pub port : Int

  -- `ClamAVClient(host, port)`, over the variables CLAMAV_HOST and CLAMAV_PORT
  pub make_client : Option String → Option String → Option String → Option Int → ClamAvClient
  unfolding env_host env_port
  make_client clamav_host clamav_port host port = record {
    host = elim host [ some h ↦ h | none ↦ env_host clamav_host ];
    port = elim port [ some p ↦ p | none ↦ env_port clamav_port ];
  }

  -- The worker always has an address to scan at: whatever the environment holds, the host of a client that is made
  -- without arguments is not empty, and its port is 3310 or what CLAMAV_PORT reads as.
  pub make_client_address :
      (clamav_host clamav_port : Option String)
      → let c = make_client clamav_host clamav_port none none in
        (is_empty c.host ≡ false)
        × ((c.port ≡ int 3310)
            ⊎ ((raw : String) × (clamav_port ≡ some raw) × (parse_int raw ≡ some c.port)))
  unfolding make_client
  make_client_address clamav_host clamav_port =
      (env_host_given clamav_host, env_port_read clamav_port)

pub data ClamAvConnectionError : Type 0 where
  unreachable : ClamAvConnectionError

-- What `ping` of pyclamd brings: none if it raises a `ConnectionError`.
pub ping : Option Bool → Result ClamAvConnectionError Bool
ping none = err unreachable
ping (some answer) = ok answer
