-- ===== src/FaultConfigServer/Http.antt =====
-- What a handler answers: the response types of fault_config_server/handler.rs, and the values of
-- `actix_web` that they are made of. A body is the value that is serialised, not its JSON text.
use red_monkey.Common.{ℕ, Text, List, codes, ◌++◌}
use red_monkey.Store.Fault.{Fault}

-- The associated constants of `StatusCode` that the handlers name.
pub data StatusCode : Type 0 where
  ok_200 created no_content bad_request conflict internal_server_error : StatusCode

abbrev pub as_u16 : StatusCode → ℕ
as_u16 ok_200 = 200
as_u16 created = 201
as_u16 no_content = 204
as_u16 bad_request = 400
as_u16 conflict = 409
as_u16 internal_server_error = 500

pub record ServerErrorResponse : Type 0 where
  pub status_code : ℕ
  pub message : Text

abbrev pub new_server_error : StatusCode → Text → ServerErrorResponse
new_server_error status message = record { status_code = as_u16 status; message = message }

-- `Debug` and `Display` write the same text.
abbrev pub server_error_to_string : ServerErrorResponse → Text
server_error_to_string e = codes "error: " ++ e.message

pub data Body (T : Type 0) : Type 0 where
  no_body : Body T
  json_fault : Fault T → Body T
  json_faults : List (Fault T) → Body T
  json_error : ServerErrorResponse → Body T

-- `HttpResponse`, and a builder that is answered as it is, with no body.
pub record HttpResponse (T : Type 0) : Type 0 where
  pub status : ℕ
  pub body : Body T

abbrev pub empty_response : {T : Type 0} → StatusCode → HttpResponse T
empty_response status = record { status = as_u16 status; body = no_body }

-- `ResponseError::status_code` and `ResponseError::error_response` of `ServerErrorResponse`.
-- `StatusCode::from_u16(..).unwrap()` gives back the code: the field is private, and only `new` sets
-- it, to `as_u16` of a `StatusCode`.
abbrev pub response_error_status : ServerErrorResponse → ℕ
response_error_status e = as_u16 internal_server_error

abbrev pub error_response : {T : Type 0} → ServerErrorResponse → HttpResponse T
error_response e = record { status = e.status_code; body = json_error e }
