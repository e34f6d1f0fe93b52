-- ===== src/Http.antt =====
-- internal/httpx/httpx.go, and what a handler writes: a JSON value, an error as a JSON value, or a
-- bare status. The encoded body and the headers are not modelled.
use cartnova_go_microservice.Prelude.{ℕ, String}

pub data Response (A : Type 0) : Type 0 where
  json : ℕ → A → Response A
  error : ℕ → String → Response A
  bare : ℕ → Response A

abbrev pub status_ok : ℕ
status_ok = 200

abbrev pub status_created : ℕ
status_created = 201

abbrev pub status_no_content : ℕ
status_no_content = 204

abbrev pub bad_request : ℕ
bad_request = 400

abbrev pub unauthorized : ℕ
unauthorized = 401

abbrev pub forbidden : ℕ
forbidden = 403

abbrev pub not_found : ℕ
not_found = 404

abbrev pub conflict : ℕ
conflict = 409

abbrev pub internal_server_error : ℕ
internal_server_error = 500

-- The status that the client reads.
abbrev pub status : {A : Type 0} → Response A → ℕ
status (json code value) = code
status (error code message) = code
status (bare code) = code
